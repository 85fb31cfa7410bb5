-- ===== src/Tickets/Access.antt =====
-- apps/api/src/modules/tickets/ticket-access-policy.service.ts
use kayaka_style_hd.Prelude.{
  ℕ, Bool, true, false, not, ◌&&◌, ◌||◌, Option, none, some, List, [], ◌∷◌, ◌==◌, if◌then◌else◌,
  is_some, length, any, elem, find?, count_where, update_where,
}
use kayaka_style_hd.Tickets.Store.{
  Ticket, Membership, Agent, Child, Db, Actor, Denial, department_not_found, ticket_not_found,
  tickets_not_found, attachment_not_found, time_entry_not_found, follow_up_not_found,
  staff_not_found, staff_disabled, assignee_out_of_department, Result, ok, err, ◌>>=◌, require,
  found, dedup,
}

pub record TicketDepartmentScope : Type 0 where
  pub unrestricted : Bool
  pub department_ids : List ℕ

abbrev pub is_member : Db → ℕ → ℕ → Bool
is_member db staff_id department_id =
    any (λ m. m.department_id == department_id && m.staff_id == staff_id) db.memberships

unfoldable pub department_ids_of : ℕ → List Membership → List ℕ
department_ids_of staff_id [] = []
department_ids_of staff_id (m ∷ ms) =
    let rest = department_ids_of staff_id ms in
    if m.staff_id == staff_id then m.department_id ∷ rest else rest

unfoldable pub resolve_scope : Db → Actor → TicketDepartmentScope
unfolding dedup department_ids_of
resolve_scope db a =
    if a.is_admin then record { unrestricted = true; department_ids = [] } else record {
      unrestricted = false;
      department_ids = dedup (department_ids_of a.staff_id db.memberships);
    }

-- A where clause is the test of the rows that it selects.
unfoldable pub ticket_where : Db → Actor → Ticket → Bool
ticket_where db a t = a.is_admin || is_member db a.staff_id t.department_id

unfoldable pub ticket_where_for_scope : TicketDepartmentScope → Ticket → Bool
ticket_where_for_scope s t = s.unrestricted || elem t.department_id s.department_ids

unfoldable pub assert_can_access_department : Db → Actor → ℕ → Result (Unit {0})
unfolding resolve_scope
assert_can_access_department db a department_id =
    let s = resolve_scope db a in
    if not s.unrestricted && not (elem department_id s.department_ids)
    then err department_not_found
    else ok tt

unfoldable pub assert_can_access_department_in_transaction : Db → Actor → ℕ → Result (Unit {0})
assert_can_access_department_in_transaction db a department_id =
    if a.is_admin
    then ok tt
    else if is_member db a.staff_id department_id
    then ok tt
    else err department_not_found

abbrev pub is_visible_id : Db → Actor → ℕ → Ticket → Bool
is_visible_id db a id t = t.id == id && ticket_where db a t

unfoldable pub assert_can_access_ticket : Db → Actor → ℕ → Result (Unit {0})
unfolding find? ticket_where
assert_can_access_ticket db a id =
    require (is_some (find? (is_visible_id db a id) db.tickets)) ticket_not_found

abbrev pub touch : ℕ → Ticket → Ticket
touch now t = record t { last_activity_at = now }

-- The conditional update: it throws, and the transaction rolls back, unless it took one row.
unfoldable pub fence_ticket_mutation : ℕ → Actor → ℕ → Db → Result Db
unfolding update_where count_where ticket_where
fence_ticket_mutation now a id db =
    if count_where (is_visible_id db a id) db.tickets == 1
    then ok (record db { tickets = update_where (is_visible_id db a id) (touch now) db.tickets })
    else err ticket_not_found

unfoldable pub assert_can_access_tickets : Db → Actor → List ℕ → Result (Unit {0})
unfolding dedup count_where ticket_where
assert_can_access_tickets db a ids =
    let unique_ids = dedup ids in
    require
      (length unique_ids == 0
        || count_where (λ t. elem t.id unique_ids && ticket_where db a t) db.tickets
          == length unique_ids)
      tickets_not_found

abbrev pub child_by_id : ℕ → List Child → Option Child
child_by_id id = find? (λ c. c.id == id)

-- The ticket of a row that has one.
abbrev pub ticket_of : Denial → Option Child → Result ℕ
ticket_of e none = err e
ticket_of e (some c) = found c.ticket_id e

unfoldable pub assert_can_access_attachment : Db → Actor → ℕ → Result (Unit {0})
unfolding assert_can_access_ticket
assert_can_access_attachment db a id =
    ticket_of attachment_not_found (child_by_id id db.attachments) >>= assert_can_access_ticket db a

unfoldable pub assert_can_access_time_entry : Db → Actor → ℕ → Result (Unit {0})
unfolding assert_can_access_ticket
assert_can_access_time_entry db a id =
    ticket_of time_entry_not_found (child_by_id id db.time_entries)
    >>= assert_can_access_ticket db a

unfoldable pub assert_can_access_follow_up : Db → Actor → ℕ → Result (Unit {0})
unfolding assert_can_access_ticket
assert_can_access_follow_up db a id =
    ticket_of follow_up_not_found (child_by_id id db.follow_ups) >>= assert_can_access_ticket db a

abbrev pub check_assignee : Db → List ℕ → Agent → Result (Unit {0})
check_assignee db department_ids s =
    if not s.is_enabled
    then err staff_disabled
    else if s.is_admin
    then ok tt
    else if any (λ d. not (is_member db s.id d)) department_ids
    then err assignee_out_of_department
    else ok tt

unfoldable pub assert_assignee_can_handle_departments : Db → ℕ → List ℕ → Result (Unit {0})
unfolding find?
assert_assignee_can_handle_departments db staff_id department_ids =
    found (find? (λ s. s.id == staff_id) db.agents) staff_not_found
    >>= check_assignee db department_ids
