-- ===== src/Sla/Claims.antt =====
-- A breach is claimed once, and whom its notifications reach.
use kayaka_style_hd.Prelude.{
  ℕ, ◌*◌, ◌<◌, ◌≡◌, refl, sym, ap, ◌∙◌, subst, ◌⊎◌, inl, inr, Bool, true, not, ◌&&◌, some, List,
  ◌∷◌, arith, leb, ◌==◌, ==_iff, Bool-cases, Option-cases, is_none, All, count_where, keep,
  find?-sound, count_where-update_where_same, count_where_pos,
}
use kayaka_style_hd.Tickets.Store.{Ticket}
use kayaka_style_hd.Sla.Store.{
  bind-eq-ok, ok-injective, BreachType, first_response, resolution, EscalationRule,
  SlaEscalationEvent, Command, SlaDb, Tx, Abort, ok, err, has_key, same_type, stale,
  unique_violation,
}
use kayaka_style_hd.Sla.Breach.{
  active_breach_where, active_breach, plan_rules, execute_escalation_rules, create_event, mark,
  escalate, fenced, claim, process_breach,
}
use kayaka_style_hd.Sla.Entitled.{IsEntitled, Keeps, rules-Keeps}

abbrev pub same_place : Ticket → Ticket → Bool
same_place t x = x.id == t.id && x.department_id == t.department_id

-- The notification is about a ticket of the table, and a staff member who may read it gets it.
abbrev pub IsAddressed : SlaDb → Command → Type 0
IsAddressed db c =
    (t : Ticket) × (0 < count_where (same_place t) db.tickets) × IsEntitled db.staff t c

abbrev pub event_of : ℕ → BreachType → SlaEscalationEvent
event_of id ty = record { ticket_id = id; breach_type = ty }

-- What the transaction of a breach does when it commits.
abbrev pub IsClaim : ℕ → BreachType → SlaDb → SlaDb → Type 0
IsClaim id ty db db' =
    (count_where (has_key id ty) db.events ≡ 0)
    × (db'.events ≡ event_of id ty ∷ db.events)
    × (db'.staff ≡ db.staff)
    × (All (IsAddressed db) db.commands → All (IsAddressed db) db'.commands)

Tx-cases {ℓ} : {A : Type ℓ} (m : Tx A) → ((a : A) × (m ≡ ok a)) ⊎ ((e : Abort) × (m ≡ err e))
Tx-cases (ok a) = inl (a, refl)
Tx-cases (err e) = inr (e, refl)

active_breach-id :
    (id : ℕ) (ty : BreachType) (now : ℕ) (t : Ticket)
    → active_breach_where id ty now t ≡ true
    → t.id ≡ id
unfolding active_breach_where
active_breach-id id first_response now t h = ground arith
active_breach-id id resolution now t h = ground arith

place-mark :
    (id : ℕ) (ty : BreachType) (now later : ℕ) (t : Ticket) (db : SlaDb)
    → active_breach id ty later (mark id ty now db) ≡ some t
    → 0 < count_where (same_place t) db.tickets
place-mark id ty now later t db h =
    let seen =
      count_where_pos (active_breach_where id ty later) (same_place t) (mark id ty now db).tickets t
        h (ground arith) in
    subst (λ n. 0 < n)
      (count_where-update_where_same (same_place t)
        (λ x. active_breach_where id ty now x && not x.is_escalated) escalate db.tickets
        (λ x p. refl))
      seen

rules_lem :
    (renders : Bool) (ty : BreachType) (minutes : ℕ) (rules : List EscalationRule) (t : Ticket)
    (Q : Command → Type 0) (db db' : SlaDb)
    → ((c : Command) → IsEntitled db.staff t c → Q c)
    → execute_escalation_rules renders t ty minutes rules db ≡ ok db'
    → Keeps db.staff Q db db'
unfolding execute_escalation_rules
rules_lem renders ty minutes rules t Q db db' q h = elim (Bool-cases (is_none t.sla_plan_id)) [
  | inl y ↦ subst (Keeps db.staff Q db) (ok-injective (rw y at h)) (refl, refl, λ a. a)
  | inr n ↦
      rules-Keeps db.staff Q t q renders (event_of t.id ty)
        (keep (λ r. same_type r.target_type ty && leb r.threshold_seconds (minutes * 60)) rules) db
        db' refl refl (rw n at h)
]

create_event_lem :
    (id : ℕ) (ty : BreachType) (db db' : SlaDb)
    → create_event id ty db ≡ ok db'
    → (count_where (has_key id ty) db.events ≡ 0)
      × (record db { events = event_of id ty ∷ db.events } ≡ db')
unfolding create_event
create_event_lem id ty db db' h = elim (Bool-cases (count_where (has_key id ty) db.events == 0)) [
  | inl y ↦ ((==_iff (count_where (has_key id ty) db.events) 0).0 y, ok-injective (rw y at h))
  | inr n ↦ let h' : err unique_violation ≡ ok db' = rw n at h in absurd (cc)
]

fenced-IsClaim :
    (renders : Bool) (ty : BreachType) (minutes now later id : ℕ) (rules : List EscalationRule)
    (db db1 db' : SlaDb)
    → count_where (has_key id ty) db.events ≡ 0
    → record db { events = event_of id ty ∷ db.events } ≡ db1
    → fenced renders ty minutes rules
        (active_breach id ty later (mark id ty now db1))
        (mark id ty now db1)
      ≡ ok db'
    → IsClaim id ty db db'
unfolding fenced
fenced-IsClaim renders ty minutes now later id rules db db1 db' free made h =
    elim (Option-cases (active_breach id ty later (mark id ty now db1))) [
      | inl n ↦ let h' : err stale ≡ ok db' = rw n at h in absurd (cc)
      | inr u ↦
          let place = place-mark id ty now later u.0 db1 u.1 in
          let same : db1.tickets ≡ db.tickets = ap (λ d. d.tickets) (sym made) in
          let staff : db1.staff ≡ db.staff = ap (λ d. d.staff) (sym made) in
          let events : db1.events ≡ event_of id ty ∷ db.events = ap (λ d. d.events) (sym made) in
          let commands : db.commands ≡ db1.commands = ap (λ d. d.commands) made in
          let k =
            rules_lem renders ty minutes rules u.0 (IsAddressed db) (mark id ty now db1) db'
              (λ c e. (
                u.0,
                subst (λ ts. 0 < count_where (same_place u.0) ts) same place,
                subst (λ ss. IsEntitled ss u.0 c) staff e,
              ))
              (rw u.1 at h) in
          (free, k.0 ∙ events, k.1 ∙ staff, λ a. k.2 (subst (All (IsAddressed db)) commands a))
    ]

claim-IsClaim :
    (renders : Bool) (ty : BreachType) (minutes now later : ℕ) (t : Ticket) (db db' : SlaDb)
    → claim renders ty minutes now later (some t) db ≡ ok db'
    → IsClaim t.id ty db db'
unfolding claim
claim-IsClaim renders ty minutes now later t db db' h =
    let rules = plan_rules db t.sla_plan_id in
    let m =
      bind-eq-ok (create_event t.id ty db)
        (λ d.
          fenced renders ty minutes rules (active_breach t.id ty later (mark t.id ty now d))
            (mark t.id ty now d))
        h in
    let c = create_event_lem t.id ty db m.0 m.1 in
    fenced-IsClaim renders ty minutes now later t.id rules db m.0 db' c.0 c.1 m.2

-- One run of `processBreach` either leaves the tables as they were or claims the breach.
process_breach_cases :
    (renders : Bool) (now later : ℕ) (db : SlaDb) (id : ℕ) (ty : BreachType) (minutes : ℕ)
    → (process_breach renders now later db id ty minutes ≡ db)
      ⊎ IsClaim id ty db (process_breach renders now later db id ty minutes)
unfolding process_breach claim
process_breach_cases renders now later db id ty minutes =
    elim (Option-cases (active_breach id ty now db))
      as (λ _.
        (process_breach renders now later db id ty minutes ≡ db)
        ⊎ IsClaim id ty db (process_breach renders now later db id ty minutes)) [
          | inl n ↦ inl (rw n refl)
          | inr u ↦ elim (Tx-cases (claim renders ty minutes now later (some u.0) db)) [
            | inl c ↦
                let same : u.0.id ≡ id =
                  active_breach-id id ty now u.0
                    (find?-sound (active_breach_where id ty now) db.tickets u.0 u.1) in
                let run : process_breach renders now later db id ty minutes ≡ c.0 =
                  rw (u.1, c.1) refl in
                inr (
                  subst (IsClaim id ty db) (sym run) (
                    subst (λ i. IsClaim i ty db c.0) same
                      (claim-IsClaim renders ty minutes now later u.0 db c.0 c.1)))
            | inr a ↦ inl (rw (u.1, a.1) refl)
          ]
        ]

-- A notification that processing a breach writes goes to an enabled staff member who is an admin
-- or a member of the department of the ticket it is about: if all notifications before were
-- addressed so, then all are afterwards, whatever the rules ask for.
pub process_breach-IsAddressed :
    (renders : Bool) (now later : ℕ) (db : SlaDb) (id : ℕ) (ty : BreachType) (minutes : ℕ)
    → All (IsAddressed db) db.commands
    → All (IsAddressed db) (process_breach renders now later db id ty minutes).commands
process_breach-IsAddressed renders now later db id ty minutes a =
    elim (process_breach_cases renders now later db id ty minutes) [
      | inl e ↦ rw e a
      | inr c ↦ c.3 a
    ]

-- A claimed breach stays as it is: when an event with the source key of the ticket and the type of
-- breach exists, processing that breach again changes no table, at any time and with any rules.
pub process_breach_again :
    (renders : Bool) (now later : ℕ) (db : SlaDb) (id : ℕ) (ty : BreachType) (minutes : ℕ)
    → 0 < count_where (has_key id ty) db.events
    → process_breach renders now later db id ty minutes ≡ db
process_breach_again renders now later db id ty minutes h =
    elim (process_breach_cases renders now later db id ty minutes) [
      | inl e ↦ e
      | inr c ↦ absurd (let none_yet = c.0 in omega arith)
    ]
