-- ===== src/Sla/Late.antt =====
-- The escalation rules that a claim of a breach does not reach: `processBreach` of
-- apps/api/src/modules/sla/sla.service.ts.
use kayaka_style_hd.Prelude.{
  ℕ, ◌*◌, ◌<◌, ◌≡◌, refl, ap, ◌∙◌, not, map, update_where, subst, inl, inr, Bool, false, ◌&&◌,
  Option, none, some, List, [], ◌∷◌, arith, leb, ◌==◌, Bool-cases, All, keep, All-keep,
}
use kayaka_style_hd.Tickets.Store.{Ticket}
use kayaka_style_hd.Sla.Store.{
  BreachType, EscalationRule, SlaDb, ok, err, same_type, bind-eq-ok, Tx,
}
use kayaka_style_hd.Sla.Actions.{execute_rules}
use kayaka_style_hd.Sla.Breach.{
  active_breach, active_breach_where, escalate, insert_rule, sort_rules, plan_rules,
  execute_escalation_rules, create_event, mark, fenced, claim, settle, process_breach,
}

-- The rules' thresholds lie above the time by which the breach is overdue.
abbrev pub AreLate : ℕ → List EscalationRule → Type 0
AreLate minutes rs = All (λ r. minutes * 60 < r.threshold_seconds) rs

keep_late :
    (ty : BreachType) (minutes : ℕ) (rs : List EscalationRule)
    → AreLate minutes rs
    → keep (λ r. same_type r.target_type ty && leb r.threshold_seconds (minutes * 60)) rs ≡ []
unfolding keep
keep_late ty minutes [] h = refl
keep_late ty minutes (r ∷ rs) h =
    let above = h.0 in
    let none_reached : leb r.threshold_seconds (minutes * 60) ≡ false = ground arith in
    rw (none_reached, keep_late ty minutes rs h.1) (ground arith)

execute_late :
    (renders : Bool) (t : Ticket) (ty : BreachType) (minutes : ℕ) (rs : List EscalationRule)
    (db : SlaDb)
    → AreLate minutes rs
    → execute_escalation_rules renders t ty minutes rs db ≡ ok db
unfolding execute_escalation_rules execute_rules
execute_late renders t ty minutes rs db h = rw (keep_late ty minutes rs h) (ground arith)

insert_rule-AreLate :
    (minutes : ℕ) (r : EscalationRule) (rs : List EscalationRule)
    → minutes * 60 < r.threshold_seconds
    → AreLate minutes rs
    → AreLate minutes (insert_rule r rs)
unfolding insert_rule
insert_rule-AreLate minutes r [] h k = (h, tt)
insert_rule-AreLate minutes r (x ∷ xs) h k =
    elim (Bool-cases (leb r.threshold_seconds x.threshold_seconds)) [
      | inl e ↦ rw e (h, k)
      | inr e ↦ rw e (k.0, insert_rule-AreLate minutes r xs h k.1)
    ]

sort_rules-AreLate :
    (minutes : ℕ) (rs : List EscalationRule) → AreLate minutes rs → AreLate minutes (sort_rules rs)
unfolding sort_rules
sort_rules-AreLate minutes [] h = tt
sort_rules-AreLate minutes (r ∷ rs) h =
    insert_rule-AreLate minutes r (sort_rules rs) h.0 (sort_rules-AreLate minutes rs h.1)

plan_rules-AreLate :
    (minutes : ℕ) (db : SlaDb) (plan : Option ℕ)
    → AreLate minutes db.rules
    → AreLate minutes (plan_rules db plan)
unfolding plan_rules
plan_rules-AreLate minutes db none h = tt
plan_rules-AreLate minutes db (some n) h =
    sort_rules-AreLate minutes (keep (λ r. r.sla_plan_id == n && r.is_enabled) db.rules) (
      All-keep (λ r. minutes * 60 < r.threshold_seconds) (λ r. r.sla_plan_id == n && r.is_enabled)
        db.rules h)

-- What the rules can change of a ticket but for its escalation.
abbrev pub held : Ticket → ℕ × Option ℕ × ℕ
held t = (t.id, t.owner_staff_id, t.priority_id)

-- Nothing is written to the outbox and the notes, and every ticket keeps its owner and priority.
abbrev pub IsSilent : SlaDb → SlaDb → Type 0
IsSilent db db' =
    (db'.commands ≡ db.commands)
    × (db'.notes ≡ db.notes)
    × (map held db'.tickets ≡ map held db.tickets)

map-update_where :
    {A B : Type 0} (g : A → B) (p : A → Bool) (f : A → A) (xs : List A)
    → ((x : A) → g (f x) ≡ g x)
    → map g (update_where p f xs) ≡ map g xs
unfolding update_where
map-update_where g p f [] h = refl
map-update_where g p f (x ∷ xs) h = elim (Bool-cases (p x)) [
  | inl t ↦ rw (t, h x, map-update_where g p f xs h) refl
  | inr t ↦ rw (t, map-update_where g p f xs h) refl
]

mark-held :
    (id : ℕ) (ty : BreachType) (now : ℕ) (db : SlaDb)
    → map held (mark id ty now db).tickets ≡ map held db.tickets
mark-held id ty now db =
    map-update_where held (λ t. active_breach_where id ty now t && not t.is_escalated) escalate
      db.tickets (λ t. refl)

created-IsSilent :
    (id : ℕ) (ty : BreachType) (db db' : SlaDb) → create_event id ty db ≡ ok db' → IsSilent db db'
unfolding create_event
created-IsSilent id ty db db' h =
    let same : db'.tickets ≡ db.tickets = ground arith in
    (ground arith, ground arith, ap (map held) same)

fenced-IsSilent :
    (renders : Bool) (ty : BreachType) (minutes : ℕ) (rs : List EscalationRule) (o : Option Ticket)
    (db db' : SlaDb)
    → AreLate minutes rs
    → fenced renders ty minutes rs o db ≡ ok db'
    → db ≡ db'
unfolding fenced
fenced-IsSilent renders ty minutes rs none db db' h e = absurd (cc)
fenced-IsSilent renders ty minutes rs (some t) db db' h e =
    let same = execute_late renders t ty minutes rs db h in cc

settle-IsSilent :
    (m : Tx SlaDb) (db : SlaDb)
    → ((db' : SlaDb) → m ≡ ok db' → IsSilent db db')
    → IsSilent db (settle m db)
settle-IsSilent (ok db') db h = h db' refl
settle-IsSilent (err e) db h = (refl, refl, refl)

claim-IsSilent :
    (renders : Bool) (ty : BreachType) (minutes now later : ℕ) (o : Option Ticket) (db db' : SlaDb)
    → AreLate minutes db.rules
    → claim renders ty minutes now later o db ≡ ok db'
    → IsSilent db db'
unfolding claim
claim-IsSilent renders ty minutes now later none db db' h e =
    let same : db ≡ db' = cc in subst (IsSilent db) same (refl, refl, refl)
claim-IsSilent renders ty minutes now later (some t) db db' h e =
    let rules = plan_rules db t.sla_plan_id in
    let m =
      bind-eq-ok (create_event t.id ty db)
        (λ d.
          fenced renders ty minutes rules (active_breach t.id ty later (mark t.id ty now d))
            (mark t.id ty now d))
        e in
    let made = created-IsSilent t.id ty db m.0 m.1 in
    let same =
      fenced-IsSilent renders ty minutes rules (active_breach t.id ty later (mark t.id ty now m.0))
        (mark t.id ty now m.0) db' (plan_rules-AreLate minutes db t.sla_plan_id h) m.2 in
    subst (IsSilent db) same (made.0, made.1, mark-held t.id ty now m.0 ∙ made.2)

-- A breach that is processed while it is overdue by less than the threshold of every rule in the table
-- notifies nobody, writes no note and changes no ticket's owner or priority, whether or not it is
-- claimed.
pub process_breach-IsSilent :
    (renders : Bool) (now later : ℕ) (db : SlaDb) (id : ℕ) (ty : BreachType) (minutes : ℕ)
    → AreLate minutes db.rules
    → IsSilent db (process_breach renders now later db id ty minutes)
unfolding process_breach
process_breach-IsSilent renders now later db id ty minutes h =
    settle-IsSilent (claim renders ty minutes now later (active_breach id ty now db) db) db
      (λ db' e. claim-IsSilent renders ty minutes now later (active_breach id ty now db) db db' h e)
