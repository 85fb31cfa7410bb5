-- ===== src/Inbound/Access.antt =====
-- apps/api/src/modules/mail/mail-access-policy.service.ts: which queues and inbound deliveries a mail
-- operator may act on.
use kayaka_style_hd.Prelude.{
  Outcome, ok, err, ◌>>◌, require, ℕ, Bool, true, false, ◌&&◌, ◌||◌, Option, none, some, List, [],
  ltb, ◌==◌, if◌then◌else◌, is_some, elem, find?,
}
use kayaka_style_hd.Tickets.Store.{Ticket, Membership, dedup}
use kayaka_style_hd.Inbound.Store.{
  EffectiveOwnerKind, unresolved, receiving, routed, of_ticket, EmailQueue, InboundDelivery,
}
use kayaka_style_hd.Tickets.Access.{department_ids_of}

-- `MailAccessActor`; a missing actor, or a field of another type, is `none`.
pub record MailAccessActor : Type 0 where
  pub staff_id : Option ℕ
  pub is_admin : Option Bool

pub record MailDepartmentScope : Type 0 where
  pub unrestricted : Bool
  pub department_ids : List ℕ

pub data MailRefusal : Type 0 where
  invalid_operator department_not_found : MailRefusal

abbrev pub is_positive : Option ℕ → Bool
is_positive none = false
is_positive (some n) = ltb 0 n

-- `assertValidActor` passes.
unfoldable pub is_valid_actor : Option MailAccessActor → Bool
is_valid_actor none = false
is_valid_actor (some a) = is_positive a.staff_id && is_some a.is_admin

abbrev pub scope_of : List Membership → Option ℕ → Option Bool → MailDepartmentScope
scope_of ms _ (some true) = record { unrestricted = true; department_ids = [] }
scope_of ms (some staff_id) _ = record {
  unrestricted = false;
  department_ids = dedup (department_ids_of staff_id ms);
}
scope_of ms none _ = record { unrestricted = false; department_ids = [] }

unfoldable pub resolve_scope :
    List Membership → Option MailAccessActor → Outcome MailRefusal MailDepartmentScope
unfolding is_valid_actor department_ids_of dedup
resolve_scope ms none = err invalid_operator
resolve_scope ms (some a) =
    require (is_valid_actor (some a)) invalid_operator >> ok (scope_of ms a.staff_id a.is_admin)

abbrev pub elem_some : Option ℕ → List ℕ → Bool
elem_some none ids = false
elem_some (some d) ids = elem d ids

unfoldable pub queue_where_for_scope : MailDepartmentScope → EmailQueue → Bool
queue_where_for_scope s q = s.unrestricted || elem_some q.department_id s.department_ids

unfoldable pub queue_by_id_where_for_scope : ℕ → MailDepartmentScope → EmailQueue → Bool
unfolding queue_where_for_scope
queue_by_id_where_for_scope id s q = q.id == id && queue_where_for_scope s q

unfoldable pub ticket_where_for_scope : MailDepartmentScope → Ticket → Bool
ticket_where_for_scope s t = s.unrestricted || elem t.department_id s.department_ids

-- The join of a delivery with its owning ticket.
unfoldable pub owner_ticket : List Ticket → Option ℕ → Option Ticket
unfolding find?
owner_ticket ts none = none
owner_ticket ts (some id) = find? (λ t. t.id == id) ts

abbrev pub is_allowed_ticket : List ℕ → Option Ticket → Bool
is_allowed_ticket ids none = false
is_allowed_ticket ids (some t) = elem t.department_id ids

abbrev pub is_owned_by : List ℕ → EffectiveOwnerKind → Option ℕ → Option Ticket → Bool
is_owned_by ids receiving d t = elem_some d ids
is_owned_by ids routed d t = elem_some d ids
is_owned_by ids of_ticket d t = is_allowed_ticket ids t
is_owned_by ids unresolved d t = false

unfoldable pub delivery_where_for_scope : List Ticket → MailDepartmentScope → InboundDelivery → Bool
unfolding owner_ticket
delivery_where_for_scope ts s d =
    s.unrestricted
    || is_owned_by s.department_ids d.effective_owner_kind d.effective_owner_department_id
        (owner_ticket ts d.effective_owner_ticket_id)

unfoldable pub delivery_by_id_where_for_scope :
    ℕ → List Ticket → MailDepartmentScope → InboundDelivery → Bool
unfolding delivery_where_for_scope
delivery_by_id_where_for_scope id ts s d = d.id == id && delivery_where_for_scope ts s d

unfoldable pub assert_can_target_queue_department :
    MailDepartmentScope → Option ℕ → Outcome MailRefusal (Unit {0})
assert_can_target_queue_department s d =
    if s.unrestricted then ok tt else require (elem_some d s.department_ids) department_not_found
