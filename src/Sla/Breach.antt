-- ===== src/Sla/Breach.antt =====
-- apps/api/src/modules/sla/sla.service.ts: the breach scan and the claim of a breach.
use kayaka_style_hd.Prelude.{
  ℕ, suc, ◌-◌, ◌*◌, ◌/◌, Bool, true, not, ◌&&◌, ◌||◌, Option, none, some, List, [], ◌∷◌, ◌++◌, ltb,
  leb, ◌==◌, if◌then◌else◌, is_none, take, find?, count_where, update_where, keep,
}
use kayaka_style_hd.Tickets.Store.{Ticket}
use kayaka_style_hd.Sla.Store.{
  ◌>>=◌, same_type, has_key, is_before, BreachType, EscalationRule, SlaDb, Tx, first_response,
  resolution, stale, unique_violation, err, ok,
}
use kayaka_style_hd.Sla.Actions.{execute_rules}

unfoldable pub active_breach_where : ℕ → BreachType → ℕ → Ticket → Bool
active_breach_where id first_response now t =
    t.id == id
    && not t.is_resolved
    && is_none t.merged_into_id
    && is_before t.due_at now
    && is_none t.first_response_at
active_breach_where id resolution now t =
    t.id == id && not t.is_resolved && is_none t.merged_into_id && is_before t.resolution_due_at now

-- `orderBy: { thresholdSeconds: 'asc' }`.
unfoldable pub insert_rule : EscalationRule → List EscalationRule → List EscalationRule
insert_rule r [] = r ∷ []
insert_rule r (x ∷ xs) =
    let rest = insert_rule r xs in
    if leb r.threshold_seconds x.threshold_seconds then r ∷ x ∷ xs else x ∷ rest

unfoldable pub sort_rules : List EscalationRule → List EscalationRule
unfolding insert_rule
sort_rules [] = []
sort_rules (r ∷ rs) = insert_rule r (sort_rules rs)

-- The enabled rules of the ticket's plan at the time of the claim, in the order of their
-- thresholds.
unfoldable pub plan_rules : SlaDb → Option ℕ → List EscalationRule
unfolding keep sort_rules
plan_rules db none = []
plan_rules db (some plan) = sort_rules (keep (λ r. r.sla_plan_id == plan && r.is_enabled) db.rules)

-- `executeEscalationRulesInTransaction`.
unfoldable pub execute_escalation_rules :
    Bool → Ticket → BreachType → ℕ → List EscalationRule → SlaDb → Tx SlaDb
unfolding execute_rules keep
execute_escalation_rules renders t ty minutes rules db =
    if is_none t.sla_plan_id
    then ok db
    else execute_rules renders t record { ticket_id = t.id; breach_type = ty }
        (keep (λ r. same_type r.target_type ty && leb r.threshold_seconds (minutes * 60)) rules) db

-- The insertion of the event fails when its source key is taken.
unfoldable pub create_event : ℕ → BreachType → SlaDb → Tx SlaDb
unfolding count_where
create_event id ty db =
    if count_where (has_key id ty) db.events == 0
    then ok (record db { events = record { ticket_id = id; breach_type = ty } ∷ db.events })
    else err unique_violation

abbrev pub escalate : Ticket → Ticket
escalate t = record t { is_escalated = true; escalation_level = suc t.escalation_level }

abbrev pub mark : ℕ → BreachType → ℕ → SlaDb → SlaDb
mark id ty now db = record db {
  tickets =
      update_where (λ t. active_breach_where id ty now t && not t.is_escalated) escalate db.tickets;
}

abbrev pub active_breach : ℕ → BreachType → ℕ → SlaDb → Option Ticket
active_breach id ty now db = find? (active_breach_where id ty now) db.tickets

unfoldable pub fenced :
    Bool → BreachType → ℕ → List EscalationRule → Option Ticket → SlaDb → Tx SlaDb
unfolding execute_escalation_rules
fenced renders ty minutes rules none db = err stale
fenced renders ty minutes rules (some t) db = execute_escalation_rules renders t ty minutes rules db

-- The transaction of `processBreach`, which reads the clock twice.
unfoldable pub claim : Bool → BreachType → ℕ → ℕ → ℕ → Option Ticket → SlaDb → Tx SlaDb
unfolding plan_rules create_event active_breach_where fenced find? update_where
claim renders ty minutes now later none db = ok db
claim renders ty minutes now later (some t) db = create_event t.id ty db >>= λ db1.
    let db2 = mark t.id ty now db1 in
    fenced renders ty minutes (plan_rules db t.sla_plan_id) (active_breach t.id ty later db2) db2

abbrev pub settle : Tx SlaDb → SlaDb → SlaDb
settle (ok db') db = db'
settle (err e) db = db

-- `processBreach`: every error is logged and leaves the tables as they were.
unfoldable pub process_breach : Bool → ℕ → ℕ → SlaDb → ℕ → BreachType → ℕ → SlaDb
unfolding claim active_breach_where find?
process_breach renders now later db id ty minutes =
    settle (claim renders ty minutes now later (active_breach id ty now db) db) db

pub record BreachEntry : Type 0 where
  pub ticket_id : ℕ
  pub breach_type : BreachType
  pub minutes_overdue : ℕ

abbrev pub scan_cap : ℕ
scan_cap = 1000

-- The `where` of `checkBreaches`.
abbrev pub is_breached : ℕ → Ticket → Bool
is_breached now t =
    not t.is_resolved
    && is_none t.merged_into_id
    && not t.is_escalated
    && ((is_before t.due_at now && is_none t.first_response_at)
        || is_before t.resolution_due_at now)

abbrev pub overdue : ℕ → BreachType → ℕ → Option ℕ → Bool → List BreachEntry
overdue id ty now none waiting = []
overdue id ty now (some due) waiting =
    if ltb due now && waiting
    then record { ticket_id = id; breach_type = ty; minutes_overdue = (now - due) / 60000 } ∷ []
    else []

unfoldable pub entries : ℕ → List Ticket → List BreachEntry
entries now [] = []
entries now (t ∷ ts) =
    overdue t.id first_response now t.due_at (is_none t.first_response_at)
    ++ overdue t.id resolution now t.resolution_due_at true
    ++ entries now ts

unfoldable pub insert_ticket : Ticket → List Ticket → List Ticket
insert_ticket t [] = t ∷ []
insert_ticket t (x ∷ xs) =
    let rest = insert_ticket t xs in if leb t.id x.id then t ∷ x ∷ xs else x ∷ rest

unfoldable pub sort_tickets : List Ticket → List Ticket
unfolding insert_ticket
sort_tickets [] = []
sort_tickets (t ∷ ts) = insert_ticket t (sort_tickets ts)

unfoldable pub check_breaches : ℕ → SlaDb → List BreachEntry
unfolding keep entries sort_tickets
check_breaches now db =
    entries now (take scan_cap (sort_tickets (keep (is_breached now) db.tickets)))

-- What one transaction meets: the two times at which it reads the clock, and whether the template
-- renders.
pub record Tick : Type 0 where
  pub renders : Bool
  pub now : ℕ
  pub later : ℕ

-- The loop of `runPeriodicCheck`.
unfoldable pub process_all : (ℕ → Tick) → ℕ → List BreachEntry → SlaDb → SlaDb
unfolding process_breach
process_all clock i [] db = db
process_all clock i (b ∷ bs) db = process_all clock (suc i) bs (
    process_breach (clock i).renders (clock i).now (clock i).later db b.ticket_id b.breach_type
      b.minutes_overdue)

unfoldable pub run_periodic_check : (ℕ → Tick) → ℕ → SlaDb → SlaDb
unfolding check_breaches process_all
run_periodic_check clock now db = process_all clock 0 (check_breaches now db) db
