-- ===== src/Tickets/Scope.antt =====
-- The forms of the department policy of apps/api/src/modules/tickets/ticket-access-policy.service.ts
-- agree with one another.
use kayaka_style_hd.Prelude.{
  ℕ, ◌≡◌, refl, ◌∙◌, inl, inr, false, ◌&&◌, List, [], ◌∷◌, arith, ◌==◌, Bool-cases, any, elem,
  drop_where,
}
use kayaka_style_hd.Tickets.Store.{Ticket, Membership, Db, Actor, dedup}
use kayaka_style_hd.Tickets.Access.{
  is_member, department_ids_of, resolve_scope, ticket_where, ticket_where_for_scope,
  assert_can_access_department, assert_can_access_department_in_transaction,
}

elem-drop_where_other :
    (a x : ℕ) (xs : List ℕ) → (x == a) ≡ false → elem a (drop_where (λ y. y == x) xs) ≡ elem a xs
unfolding drop_where
elem-drop_where_other a x [] h = refl
elem-drop_where_other a x (y ∷ ys) h = ground (arith, elem-drop_where_other a x ys h)

elem-drop_where_self : (x : ℕ) (xs : List ℕ) → elem x (drop_where (λ y. y == x) xs) ≡ false
unfolding drop_where
elem-drop_where_self x [] = refl
elem-drop_where_self x (y ∷ ys) = ground (arith, elem-drop_where_self x ys)

pub elem-dedup : (a : ℕ) (xs : List ℕ) → elem a (dedup xs) ≡ elem a xs
unfolding dedup
elem-dedup a [] = refl
elem-dedup a (x ∷ xs) = elim (Bool-cases (x == a)) [
  | inl e ↦ rw e
  | inr e ↦ rw e (elem-drop_where_other a x (dedup xs) e ∙ elem-dedup a xs)
]

pub elem-department_ids_of :
    (staff_id d : ℕ) (ms : List Membership)
    → elem d (department_ids_of staff_id ms)
      ≡ any (λ m. m.department_id == d && m.staff_id == staff_id) ms
unfolding department_ids_of
elem-department_ids_of staff_id d [] = refl
elem-department_ids_of staff_id d (m ∷ ms) = ground (arith, elem-department_ids_of staff_id d ms)

elem-scope :
    (db : Db) (staff_id d : ℕ)
    → elem d (dedup (department_ids_of staff_id db.memberships)) ≡ is_member db staff_id d
elem-scope db staff_id d =
    elem-dedup d (department_ids_of staff_id db.memberships)
    ∙ elem-department_ids_of staff_id d db.memberships

-- The resolved list of departments selects the same tickets as the relation predicate that ordinary
-- reads and writes use.
pub ticket_where_for_scope-resolve_scope :
    (db : Db) (a : Actor) (t : Ticket)
    → ticket_where_for_scope (resolve_scope db a) t ≡ ticket_where db a t
unfolding ticket_where_for_scope resolve_scope ticket_where
ticket_where_for_scope-resolve_scope db a t =
    ground (arith, elem-scope db a.staff_id t.department_id)

-- The check of a department before a transaction and the one inside it give the same answer on the
-- same tables.
pub assert_can_access_department_lem :
    (db : Db) (a : Actor) (d : ℕ)
    → assert_can_access_department db a d ≡ assert_can_access_department_in_transaction db a d
unfolding assert_can_access_department assert_can_access_department_in_transaction
assert_can_access_department_lem db a d = ground (arith, elem-scope db a.staff_id d)
