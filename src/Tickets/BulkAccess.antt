-- ===== src/Tickets/BulkAccess.antt =====
-- The check of a whole set of tickets in
-- apps/api/src/modules/tickets/ticket-access-policy.service.ts.
use kayaka_style_hd.Prelude.{
  ℕ, ◌+◌, ◌≤◌, ◌≡◌, refl, sym, ◌∙◌, subst, ◌↔◌, inl, inr, Bool, true, false, ◌&&◌, ◌||◌, List, [],
  ◌∷◌, arith, ◌==◌, ==_iff, Bool-cases, length, elem, All-of, count_where, drop_where,
  count_where_mono, count_where_none, is_some-find?,
}
use kayaka_style_hd.Tickets.Store.{Ticket, Db, Actor, Denial, tickets_not_found, ok, require, dedup}
use kayaka_style_hd.Tickets.Access.{
  ticket_where, is_visible_id, assert_can_access_ticket, assert_can_access_tickets,
}
use kayaka_style_hd.Tickets.Scope.{elem-dedup}

-- The primary key of the tickets.
abbrev pub UniqueIds : List Ticket → Type 0
UniqueIds ts = (i : ℕ) → count_where (λ t. t.id == i) ts ≤ 1

-- No number stands twice.
abbrev Distinct : List ℕ → Type 0
Distinct [] = Unit
Distinct (x ∷ xs) = (elem x xs ≡ false) × Distinct xs

elem-drop_where :
    (a x : ℕ) (xs : List ℕ) → elem a xs ≡ false → elem a (drop_where (λ y. y == x) xs) ≡ false
unfolding drop_where
elem-drop_where a x [] h = refl
elem-drop_where a x (y ∷ ys) h = ground (arith, elem-drop_where a x ys)

Distinct-drop_where : (x : ℕ) (xs : List ℕ) → Distinct xs → Distinct (drop_where (λ y. y == x) xs)
unfolding drop_where
Distinct-drop_where x [] d = tt
Distinct-drop_where x (y ∷ ys) d = elim (Bool-cases (y == x)) [
  | inl e ↦ rw e (Distinct-drop_where x ys d.1)
  | inr e ↦ rw e (elem-drop_where y x ys d.0, Distinct-drop_where x ys d.1)
]

elem-drop_where_self : (x : ℕ) (xs : List ℕ) → elem x (drop_where (λ y. y == x) xs) ≡ false
unfolding drop_where
elem-drop_where_self x [] = refl
elem-drop_where_self x (y ∷ ys) = ground (arith, elem-drop_where_self x ys)

dedup-Distinct : (xs : List ℕ) → Distinct (dedup xs)
unfolding dedup
dedup-Distinct [] = tt
dedup-Distinct (x ∷ xs) =
    (elem-drop_where_self x (dedup xs), Distinct-drop_where x (dedup xs) (dedup-Distinct xs))

set_test :
    (n k t : ℕ) (e : Denial) → k ≡ t → t ≤ n → (require (n == 0 || k == n) e ≡ ok tt) ↔ (t ≡ n)
set_test n k t e h l = (λ r. ground arith, λ r. ground arith)

module _ (db : Db) (a : Actor) where
  abbrev in_set : List ℕ → Ticket → Bool
  in_set us t = elem t.id us && ticket_where db a t

  abbrev total : List ℕ → ℕ
  total [] = 0
  total (u ∷ us) = count_where (is_visible_id db a u) db.tickets + total us

  elem_of_eq :
      (t : Ticket) (u : ℕ) (us : List ℕ)
      → elem u us ≡ false
      → (t.id == u) ≡ true
      → elem t.id us ≡ false
  elem_of_eq t u us h e = let same : t.id ≡ u = (==_iff _ _).0 e in rw same h

  split_set :
      (u : ℕ) (us : List ℕ) (ts : List Ticket)
      → elem u us ≡ false
      → count_where (in_set (u ∷ us)) ts
        ≡ count_where (is_visible_id db a u) ts + count_where (in_set us) ts
  unfolding count_where
  split_set u us [] h = omega arith
  split_set u us (t ∷ ts) h = ground (arith, split_set u us ts h, elem_of_eq t u us h)

  count_in_set : (us : List ℕ) → Distinct us → count_where (in_set us) db.tickets ≡ total us
  count_in_set [] d =
      count_where_none (in_set []) db.tickets
        (All-of (λ t. in_set [] t ≡ false) (λ t. refl) db.tickets)
  count_in_set (u ∷ us) d = omega (arith, split_set u us db.tickets d.0, count_in_set us d.1)

  module _ (unique : UniqueIds db.tickets) where
    one_visible : (u : ℕ) → count_where (is_visible_id db a u) db.tickets ≤ 1
    one_visible u = omega (
      arith,
      unique u,
      count_where_mono (is_visible_id db a u) (λ t. t.id == u) db.tickets (λ t e. ground arith),
    )

    total-le : (us : List ℕ) → total us ≤ length us
    total-le [] = omega arith
    total-le (u ∷ us) = omega (arith, one_visible u, total-le us)

    visible_of_total :
        (us : List ℕ)
        → total us ≡ length us
        → (i : ℕ) → elem i us ≡ true
        → count_where (is_visible_id db a i) db.tickets ≡ 1
    visible_of_total [] h i m = absurd (cc)
    visible_of_total (u ∷ us) h i m = elim (Bool-cases (u == i)) [
      | inl e ↦
          let same : u ≡ i = (==_iff _ _).0 e in
          subst (λ k. count_where (is_visible_id db a k) db.tickets ≡ 1) same
            (omega (arith, one_visible u, total-le us))
      | inr e ↦ visible_of_total us (omega (arith, one_visible u, total-le us)) i (ground arith)
    ]

    total_of_visible :
        (us : List ℕ)
        → ((i : ℕ) → elem i us ≡ true → count_where (is_visible_id db a i) db.tickets ≡ 1)
        → total us ≡ length us
    total_of_visible [] h = refl
    total_of_visible (u ∷ us) h =
        omega (arith, h u (ground arith), total_of_visible us (λ i m. h i (ground arith)))

    access_of_count :
        (i : ℕ)
        → (count_where (is_visible_id db a i) db.tickets ≡ 1)
          ↔ (assert_can_access_ticket db a i ≡ ok tt)
    unfolding assert_can_access_ticket
    access_of_count i =
        let p = is_visible_id db a i in
        (
          λ e. rw (is_some-find? p db.tickets, e) refl,
          λ e. ground (arith, one_visible i, is_some-find? p db.tickets),
        )

    -- Where ids are unique, a set of tickets is granted exactly if each ticket of it is, however
    -- often its id is repeated: a mixed set is refused as a whole.
    pub assert_can_access_tickets_iff :
        (ids : List ℕ)
        → (assert_can_access_tickets db a ids ≡ ok tt)
          ↔ ((i : ℕ) → elem i ids ≡ true → assert_can_access_ticket db a i ≡ ok tt)
    unfolding assert_can_access_tickets
    assert_can_access_tickets_iff ids =
        let us = dedup ids in
        let (to, from) =
          set_test (length us) (count_where (in_set us) db.tickets) (total us) tickets_not_found
            (count_in_set us (dedup-Distinct ids)) (total-le us) in
        (
          λ e i m. (access_of_count i).0 (visible_of_total us (to e) i (elem-dedup i ids ∙ m)),
          λ h. from (
              total_of_visible us
                (λ i m. (access_of_count i).1 (h i (sym (elem-dedup i ids) ∙ m)))),
        )
