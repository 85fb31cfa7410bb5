-- ===== src/Inbound/Scopes.antt =====
-- What the department policy of apps/api/src/modules/mail/mail-access-policy.service.ts lets an
-- operator see, against the assignments and the owners of deliveries.
use kayaka_style_hd.Prelude.{
  ok, is_ok, ℕ, ◌<◌, ◌≡◌, refl, ◌∙◌, Bool, true, false, ◌&&◌, ◌||◌, Option, none, some, List, [],
  arith, ◌==◌, any,
}
use kayaka_style_hd.Tickets.Store.{Ticket, Membership, dedup}
use kayaka_style_hd.Tickets.Access.{department_ids_of}
use kayaka_style_hd.Tickets.Scope.{elem-dedup, elem-department_ids_of}
use kayaka_style_hd.Inbound.Store.{
  EffectiveOwnerKind, unresolved, receiving, routed, of_ticket, EmailQueue, InboundDelivery,
}
use kayaka_style_hd.Inbound.Access.{
  is_valid_actor, resolve_scope, elem_some, queue_where_for_scope, owner_ticket, is_owned_by,
  delivery_where_for_scope, assert_can_target_queue_department, MailDepartmentScope,
}

department_of : Option Ticket → Option ℕ
department_of none = none
department_of (some t) = some t.department_id

department_by : EffectiveOwnerKind → Option ℕ → Option Ticket → Option ℕ
unfolding department_of
department_by unresolved d t = none
department_by receiving d t = d
department_by routed d t = d
department_by of_ticket d t = department_of t

-- The department that a delivery belongs to now.
abbrev pub owner_department : List Ticket → InboundDelivery → Option ℕ
unfolding owner_ticket department_by
owner_department ts d =
    department_by d.effective_owner_kind d.effective_owner_department_id
      (owner_ticket ts d.effective_owner_ticket_id)

abbrev pub is_assigned : List Membership → ℕ → Option ℕ → Bool
is_assigned ms staff_id none = false
is_assigned ms staff_id (some d) = any (λ m. m.department_id == d && m.staff_id == staff_id) ms

elem_some-lem :
    (ms : List Membership) (staff_id : ℕ) (d : Option ℕ)
    → elem_some d (dedup (department_ids_of staff_id ms)) ≡ is_assigned ms staff_id d
elem_some-lem ms staff_id none = refl
elem_some-lem ms staff_id (some d) =
    elem-dedup d (department_ids_of staff_id ms) ∙ elem-department_ids_of staff_id d ms

owned-lem :
    (ids : List ℕ) (k : EffectiveOwnerKind) (d : Option ℕ) (t : Option Ticket)
    → is_owned_by ids k d t ≡ elem_some (department_by k d t) ids
unfolding department_by
owned-lem ids unresolved d t = refl
owned-lem ids receiving d t = refl
owned-lem ids routed d t = refl
owned-lem ids of_ticket d none = refl
owned-lem ids of_ticket d (some t) = refl

-- For an operator with a positive id, an administrator sees every delivery, and any other exactly those
-- whose owner's department they are assigned to: an unresolved owner or a deleted ticket is seen by no
-- one else.
pub delivery_where_for_scope-resolve_scope :
    (ms : List Membership) (ts : List Ticket) (staff_id : ℕ) (is_admin : Bool) (d : InboundDelivery)
    → 0 < staff_id
    → (s : MailDepartmentScope) × (resolve_scope ms
          (some record { staff_id = some staff_id; is_admin = some is_admin })
        ≡ ok s)
      × (delivery_where_for_scope ts s d
          ≡ (is_admin || is_assigned ms staff_id (owner_department ts d)))
unfolding resolve_scope is_valid_actor delivery_where_for_scope department_by owner_department
delivery_where_for_scope-resolve_scope ms ts staff_id true d h =
    (record { unrestricted = true; department_ids = [] }, ground arith, refl)
delivery_where_for_scope-resolve_scope ms ts staff_id false d h = (
  record { unrestricted = false; department_ids = dedup (department_ids_of staff_id ms) },
  ground arith,
  owned-lem (dedup (department_ids_of staff_id ms)) d.effective_owner_kind
        d.effective_owner_department_id (owner_ticket ts d.effective_owner_ticket_id)
      ∙ elem_some-lem ms staff_id (owner_department ts d),
)

-- A scope may give a queue a department exactly if it sees the queue there, so that no operator
-- creates or moves a queue out of sight.
pub assert_can_target-queue_where :
    (s : MailDepartmentScope) (q : EmailQueue)
    → is_ok (assert_can_target_queue_department s q.department_id) ≡ queue_where_for_scope s q
unfolding assert_can_target_queue_department queue_where_for_scope
assert_can_target-queue_where s q = ground arith
