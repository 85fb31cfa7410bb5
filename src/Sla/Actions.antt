-- ===== src/Sla/Actions.antt =====
-- The actions of the escalation rules in apps/api/src/modules/sla/sla.service.ts, and the
-- notifications they create (mail.service.ts).
use kayaka_style_hd.Prelude.{
  ℕ, suc, Bool, true, ◌&&◌, ◌||◌, Option, none, some, List, [], ◌∷◌, ◌==◌, if◌then◌else◌, is_some,
  elem, find?, update_where,
}
use kayaka_style_hd.Tickets.Store.{Ticket}
use kayaka_style_hd.Sla.Store.{
  ◌>>=◌, has_key, ActionType, EscalationAction, EscalationRule, Recipient, SlaEscalationEvent,
  Command, SlaDb, Tx, notify, change_priority, assign, add_note, mark_escalated,
  unavailable_assignee, broken_template, conflicting_command, err, ok,
}

-- The staff member whom a notification may reach: an enabled admin, or an enabled member of the
-- ticket's department.
abbrev pub is_in_scope : Ticket → Recipient → Bool
is_in_scope t s = s.is_enabled && (s.is_admin || elem t.department_id s.departments)

-- `??`: a value that is there, be it 0, comes before the other.
abbrev pub or_else : Option ℕ → Option ℕ → Option ℕ
or_else (some a) b = some a
or_else none b = b

-- A JavaScript test of a number: 0 counts as absent.
abbrev pub truthy : Option ℕ → Option ℕ
truthy none = none
truthy (some n) = if n == 0 then none else some n

abbrev pub same_command : Command → Command → Bool
same_command c d =
    has_key c.event.ticket_id c.event.breach_type d.event
    && d.rule_id == c.rule_id
    && d.action_index == c.action_index
    && d.staff_id == c.staff_id

-- What is done with the command that already has the key: `assertInternalNotificationIdentity` of
-- mail.service.ts. The key fixes the ticket and the event, so the recipient is what can differ.
-- `renders` tells whether the template can be rendered.
abbrev pub replay_or_create : Bool → Command → SlaDb → Option Command → Tx SlaDb
replay_or_create renders c db (some d) = if d.to == c.to then ok db else err conflicting_command
replay_or_create renders c db none =
    if renders then ok (record db { commands = c ∷ db.commands }) else err broken_template

-- `createInternalNotificationEmail` of mail.service.ts: one command for each idempotency key.
unfoldable pub create_internal_notification_email : Bool → Command → SlaDb → Tx SlaDb
unfolding find?
create_internal_notification_email renders c db =
    replay_or_create renders c db (find? (same_command c) db.commands)

unfoldable pub send :
    Bool → Ticket → EscalationRule → SlaEscalationEvent → ℕ → Option Recipient → SlaDb → Tx SlaDb
unfolding create_internal_notification_email
send renders t rule event i none db = ok db
send renders t rule event i (some s) db = elim s.email [
  | none ↦ ok db
  | some to ↦
      if is_in_scope t s
      then create_internal_notification_email renders
          record { event = event; rule_id = rule.id; action_index = i; staff_id = s.id; to = to } db
      else ok db
]

abbrev pub update_ticket : ℕ → (Ticket → Ticket) → SlaDb → SlaDb
update_ticket id f db = record db { tickets = update_where (λ t. t.id == id) f db.tickets }

unfoldable pub notify_staff :
    Bool → Ticket → EscalationRule → SlaEscalationEvent → ℕ → Option ℕ → SlaDb → Tx SlaDb
unfolding send find?
notify_staff renders t rule event i none db = ok db
notify_staff renders t rule event i (some id) db =
    send renders t rule event i (find? (λ s. s.id == id) db.staff) db

unfoldable pub assign_to : Ticket → Option ℕ → SlaDb → Tx SlaDb
unfolding find?
assign_to t none db = ok db
assign_to t (some id) db =
    if is_some (find? (λ s. s.id == id && s.is_enabled) db.staff)
    then ok (update_ticket t.id (λ x. record x { owner_staff_id = some id }) db)
    else err unavailable_assignee

abbrev pub set_priority : Ticket → Option ℕ → SlaDb → SlaDb
set_priority t none db = db
set_priority t (some p) db = update_ticket t.id (λ x. record x { priority_id = p }) db

abbrev pub write_note : Ticket → EscalationRule → Option ℕ → SlaDb → SlaDb
write_note t rule none db = db
write_note t rule (some n) db = record db {
  notes = record { ticket_id = t.id; rule_id = rule.id; contents = n } ∷ db.notes;
}

unfoldable pub execute_action :
    Bool
    → Ticket
    → EscalationRule
    → SlaEscalationEvent
    → ℕ
    → EscalationAction
    → ActionType
    → SlaDb
    → Tx SlaDb
unfolding notify_staff assign_to
execute_action renders t rule event i a notify db =
    notify_staff renders t rule event i (truthy (or_else a.staff_id t.owner_staff_id)) db
execute_action renders t rule event i a change_priority db =
    ok (set_priority t (truthy a.priority_id) db)
execute_action renders t rule event i a assign db = assign_to t (truthy a.staff_id) db
execute_action renders t rule event i a add_note db = ok (write_note t rule a.note db)
execute_action renders t rule event i a mark_escalated db =
    ok (update_ticket t.id (λ x. record x { is_escalated = true }) db)

-- The actions of one rule, from index `i` on.
unfoldable pub execute_actions :
    Bool
    → Ticket
    → EscalationRule
    → SlaEscalationEvent
    → ℕ
    → List EscalationAction
    → SlaDb
    → Tx SlaDb
unfolding execute_action
execute_actions renders t rule event i [] db = ok db
execute_actions renders t rule event i (a ∷ more) db =
    execute_action renders t rule event i a a.action_type db >>= λ db'.
    execute_actions renders t rule event (suc i) more db'

unfoldable pub execute_rules :
    Bool → Ticket → SlaEscalationEvent → List EscalationRule → SlaDb → Tx SlaDb
unfolding execute_actions
execute_rules renders t event [] db = ok db
execute_rules renders t event (r ∷ rs) db =
    execute_actions renders t r event 0 r.actions db >>= λ db'. execute_rules renders t event rs db'
