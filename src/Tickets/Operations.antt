-- ===== src/Tickets/Operations.antt =====
-- apps/api/src/modules/tickets/tickets.service.ts: `assign`, `changeStatus`, `changePriority`,
-- `changeType` and `bulkAction`, as changes of the tables. The audit rows, the notification and
-- workflow outbox and the domain events are not modelled.
use kayaka_style_hd.Prelude.{
  ℕ, Bool, true, false, not, ◌&&◌, Option, none, some, List, [], ◌∷◌, ◌==◌, if◌then◌else◌, is_none,
  is_some, length, elem, find?, update_where, keep, drop_where,
}
use kayaka_style_hd.Tickets.Store.{
  Ticket, Db, Actor, ticket_not_found, tickets_not_found, staff_not_found, staff_disabled,
  status_not_found, Result, ok, err, ◌>>=◌, ◌>>◌, require, found, ticket_by_id, dedup,
}
use kayaka_style_hd.Tickets.Access.{
  ticket_where, is_visible_id, fence_ticket_mutation, assert_assignee_can_handle_departments,
}

-- `actor` is absent where the system itself acts. Then a ticket is only looked up.
unfoldable pub find_accessible : Db → Option Actor → ℕ → Result Ticket
unfolding find? ticket_where
find_accessible db none id = found (ticket_by_id id db) ticket_not_found
find_accessible db (some a) id = found (find? (is_visible_id db a id) db.tickets) ticket_not_found

-- `assertAssignableStaff`: the check without an actor.
unfoldable pub assert_assignable_staff : Db → ℕ → Result (Unit {0})
unfolding find?
assert_assignable_staff db id = do
  s ← found (find? (λ x. x.id == id) db.agents) staff_not_found
  require s.is_enabled staff_disabled

unfoldable pub check_owner : Db → Option Actor → Option ℕ → List ℕ → Result (Unit {0})
unfolding assert_assignee_can_handle_departments assert_assignable_staff
check_owner db a none departments = ok tt
check_owner db (some a) (some owner) departments =
    assert_assignee_can_handle_departments db owner departments
check_owner db none (some owner) departments = assert_assignable_staff db owner

-- The service's own `fenceTicketMutation`: nothing without an actor.
unfoldable pub fence : ℕ → Option Actor → ℕ → Db → Result Db
unfolding fence_ticket_mutation
fence now none id db = ok db
fence now (some a) id db = fence_ticket_mutation now a id db

abbrev pub update_ticket : ℕ → (Ticket → Ticket) → Db → Db
update_ticket id f db = record db { tickets = update_where (λ t. t.id == id) f db.tickets }

unfoldable pub assign : ℕ → Option Actor → ℕ → Option ℕ → Db → Result Db
unfolding find_accessible check_owner fence
assign now a id owner db = do
  t ← find_accessible db a id
  check_owner db a owner (t.department_id ∷ [])
  db' ← fence now a id db
  ok (update_ticket id (λ x. record x { owner_staff_id = owner; last_activity_at = now }) db')

unfoldable pub change_priority : ℕ → Option Actor → ℕ → ℕ → Db → Result Db
unfolding find_accessible fence
change_priority now a id priority_id db = do
  t ← find_accessible db a id
  db' ← fence now a id db
  ok (update_ticket id (λ x. record x { priority_id = priority_id; last_activity_at = now }) db')

unfoldable pub change_type : ℕ → Option Actor → ℕ → Option ℕ → Db → Result Db
unfolding find_accessible fence
change_type now a id type_id db = do
  t ← find_accessible db a id
  db' ← fence now a id db
  ok (update_ticket id (λ x. record x { type_id = type_id; last_activity_at = now }) db')

-- A TicketStatus row.
pub record Status : Type 0 where
  pub id : ℕ
  pub mark_as_resolved : Bool

-- The due dates that `computeDueDates` gives for a plan: first response and resolution.
abbrev pub DueDatesOf : Type 0
DueDatesOf = ℕ → Option ℕ × Option ℕ

abbrev reopen_clock : ℕ → Option ℕ × Option ℕ → Ticket → Ticket
reopen_clock now (due, resolution) t = record t {
  due_at = due;
  resolution_due_at = resolution;
  reopened_at = some now;
  was_reopened = true;
}

abbrev with_plan : DueDatesOf → ℕ → Option ℕ → Ticket → Ticket
with_plan dates now none t = t
with_plan dates now (some plan) t = reopen_clock now (dates plan) t

-- The `data` of a status change, from the ticket that was read before.
unfoldable pub status_patch : DueDatesOf → ℕ → Status → Ticket → Ticket → Ticket
status_patch dates now s old t =
    let base = record t {
      status_id = s.id;
      is_resolved = s.mark_as_resolved;
      resolved_at = if s.mark_as_resolved then some now else none;
      last_activity_at = now;
    } in
    if s.mark_as_resolved
    then record base { due_at = none; resolution_due_at = none }
    else if old.is_resolved
    then with_plan dates now old.sla_plan_id base
    else base

unfoldable pub change_status : DueDatesOf → List Status → ℕ → Option Actor → ℕ → ℕ → Db → Result Db
unfolding find_accessible fence status_patch find?
change_status dates statuses now a id status_id db = do
  t ← find_accessible db a id
  s ← found (find? (λ x. x.id == status_id) statuses) status_not_found
  db' ← fence now a id db
  ok (update_ticket id (status_patch dates now s t) db')

-- The `data` of a status change in a bulk action.
abbrev bulk_clock : DueDatesOf → Option ℕ → Ticket → Ticket
bulk_clock dates none t = t
bulk_clock dates (some plan) t =
    let (due, resolution) = dates plan in record t { due_at = due; resolution_due_at = resolution }

unfoldable pub bulk_status_patch : DueDatesOf → ℕ → Status → Ticket → Ticket → Ticket
bulk_status_patch dates now s old t =
    let base = record t { status_id = s.id; last_activity_at = now } in
    if s.mark_as_resolved
    then record base {
      is_resolved = true;
      resolved_at = some now;
      due_at = none;
      resolution_due_at = none;
    }
    else if old.is_resolved
    then bulk_clock dates old.sla_plan_id (record base {
      is_resolved = false;
      resolved_at = none;
      reopened_at = some now;
      was_reopened = true;
    })
    else base

-- What `bulkAction` is asked for.
pub data BulkAction : Type 0 where
  status : ℕ → BulkAction
  assignee : Option ℕ → BulkAction
  unassign : BulkAction

-- The action with the status row that was looked up for it.
pub data BulkData : Type 0 where
  set_status : Status → BulkData
  set_owner : Option ℕ → BulkData

abbrev bulk_owner : BulkAction → Option ℕ
bulk_owner (assignee o) = o
bulk_owner _ = none

abbrev bulk_data : List Status → BulkAction → Result BulkData
bulk_data statuses (status id) =
    found (find? (λ s. s.id == id) statuses) status_not_found >>= λ s. ok (set_status s)
bulk_data statuses (assignee o) = ok (set_owner o)
bulk_data statuses unassign = ok (set_owner none)

abbrev pub bulk_patch : DueDatesOf → ℕ → BulkData → Ticket → Ticket → Ticket
bulk_patch dates now (set_status s) old t = bulk_status_patch dates now s old t
bulk_patch dates now (set_owner o) old t = record t { owner_staff_id = o; last_activity_at = now }

-- One transaction for all tickets that were read: a fence that fails undoes them all.
unfoldable pub bulk_write : DueDatesOf → ℕ → Option Actor → BulkData → List Ticket → Db → Result Db
unfolding fence bulk_status_patch
bulk_write dates now a d [] db = ok db
bulk_write dates now a d (t ∷ ts) db = fence now a t.id db >>= λ db'.
    bulk_write dates now a d ts (update_ticket t.id (bulk_patch dates now d t) db')

abbrev may_see : Db → Option Actor → Ticket → Bool
may_see db none t = true
may_see db (some a) t = ticket_where db a t

abbrev ids_of : List Ticket → List ℕ
ids_of [] = []
ids_of (t ∷ ts) = t.id ∷ ids_of ts

abbrev departments_of : List Ticket → List ℕ
departments_of [] = []
departments_of (t ∷ ts) = t.department_id ∷ departments_of ts

abbrev has_actor : Option Actor → Bool
has_actor = is_some

-- The new tables, the number of updated tickets and the ids that failed.
unfoldable pub bulk_action :
    DueDatesOf
    → List Status
    → ℕ
    → Option Actor
    → List ℕ
    → BulkAction
    → Db
    → Result (Db × ℕ × List ℕ)
unfolding keep dedup bulk_write check_owner ticket_where find?
bulk_action dates statuses now a ids action db =
    let unique_ids = dedup ids in
    let existing =
      keep (λ t. elem t.id unique_ids && is_none t.merged_into_id && may_see db a t) db.tickets in
    let failed = drop_where (λ i. elem i (ids_of existing)) unique_ids in
    if has_actor a && not (length failed == 0)
    then err tickets_not_found
    else if length existing == 0
    then ok (db, 0, failed)
    else do
      d ← bulk_data statuses action
      check_owner db a (bulk_owner action) (dedup (departments_of existing))
      db' ← bulk_write dates now a d existing db
      ok (db', length existing, failed)
