-- ===== src/Sla/Entitled.antt =====
-- The escalation rules change neither the events nor the staff, and write only to staff in scope.
use kayaka_style_hd.Prelude.{
  false, ℕ, suc, ◌≡◌, refl, sym, ap, ◌∙◌, subst, ◌⊎◌, inl, inr, Bool, true, ◌&&◌, Option, none,
  some, List, [], ◌∷◌, arith, ◌==◌, ==_iff, Bool-cases, Option-cases, is_some, elem, All, find?,
  find?-sound,
}
use kayaka_style_hd.Tickets.Store.{Ticket}
use kayaka_style_hd.Sla.Store.{
  Tx, bind-eq-ok, ok-injective, ActionType, EscalationAction, EscalationRule, Recipient,
  SlaEscalationEvent, Command, SlaDb, notify, change_priority, assign, add_note, mark_escalated, ok,
  err, unavailable_assignee, conflicting_command,
}
use kayaka_style_hd.Sla.Actions.{
  replay_or_create, same_command, is_in_scope, or_else, truthy, create_internal_notification_email,
  send, notify_staff, assign_to, set_priority, write_note, update_ticket, execute_action,
  execute_actions, execute_rules,
}

-- The notification is addressed to an enabled staff member who is an admin or a member of the
-- department of the ticket.
abbrev pub IsEntitled : List Recipient → Ticket → Command → Type 0
IsEntitled ss t c =
    (c.event.ticket_id ≡ t.id)
    × (s : Recipient) × (find? (λ x. x.id == c.staff_id) ss ≡ some s)
    × (s.is_enabled ≡ true)
    × ((s.is_admin ≡ true) ⊎ (elem t.department_id s.departments ≡ true))
    × (s.email ≡ some c.to)

in_scope-on : (t : Ticket) (s : Recipient) → is_in_scope t s ≡ true → s.is_enabled ≡ true
in_scope-on t s h = ground arith

in_scope-allowed :
    (t : Ticket) (s : Recipient)
    → is_in_scope t s ≡ true
    → (s.is_admin ≡ true) ⊎ (elem t.department_id s.departments ≡ true)
in_scope-allowed t s h = elim (Bool-cases s.is_admin) [ inl y ↦ inl y | inr n ↦ inr (ground arith) ]

module _ (ss : List Recipient) (Q : Command → Type 0) where
  abbrev pub Keeps : SlaDb → SlaDb → Type 0
  Keeps db db' =
      (db'.events ≡ db.events) × (db'.staff ≡ db.staff) × (All Q db.commands → All Q db'.commands)

  Keeps-refl : (db db' : SlaDb) → ◌≡◌ {A = Tx SlaDb} (ok db) (ok db') → Keeps db db'
  Keeps-refl db db' h = subst (Keeps db) (ok-injective h) (refl, refl, λ a. a)

  Keeps-trans : (a b c : SlaDb) → Keeps a b → Keeps b c → Keeps a c
  Keeps-trans a b c h k = (k.0 ∙ h.0, k.1 ∙ h.1, λ q. k.2 (h.2 q))

  replay_or_create-Keeps :
      (renders : Bool) (c : Command) (o : Option Command) (db db' : SlaDb)
      → Q c
      → replay_or_create renders c db o ≡ ok db'
      → Keeps db db'
  replay_or_create-Keeps true c none db db' q h =
      subst (Keeps db) (ok-injective h) (refl, refl, λ a. (q, a))
  replay_or_create-Keeps false c none db db' q h = absurd (cc)
  replay_or_create-Keeps renders c (some d) db db' q h = elim (Bool-cases (d.to == c.to)) [
    | inl y ↦ Keeps-refl db db' (rw y at h)
    | inr n ↦ let h' : err conflicting_command ≡ ok db' = rw n at h in absurd (cc)
  ]

  create-Keeps :
      (renders : Bool) (c : Command) (db db' : SlaDb)
      → Q c
      → create_internal_notification_email renders c db ≡ ok db'
      → Keeps db db'
  unfolding create_internal_notification_email
  create-Keeps renders c db db' q h =
      replay_or_create-Keeps renders c (find? (same_command c) db.commands) db db' q h

  module _ (t : Ticket) (entitled : (c : Command) → IsEntitled ss t c → Q c) where
    send-Keeps :
        (renders : Bool) (r : EscalationRule) (e : SlaEscalationEvent) (i id : ℕ)
        (s : Option Recipient) (db db' : SlaDb)
        → e.ticket_id ≡ t.id
        → find? (λ x. x.id == id) ss ≡ s
        → send renders t r e i s db ≡ ok db'
        → Keeps db db'
    unfolding send
    send-Keeps renders r e i id none db db' k f h = Keeps-refl db db' h
    send-Keeps renders r e i id (some s) db db' k f h =
        let same : s.id ≡ id = (==_iff s.id id).0 (find?-sound (λ x. x.id == id) ss s f) in
        elim (Option-cases s.email) [
          | inl n ↦ Keeps-refl db db' (rw n at h)
          | inr m ↦ elim (Bool-cases (is_in_scope t s)) [
            | inl y ↦
                create-Keeps renders
                  record { event = e; rule_id = r.id; action_index = i; staff_id = s.id; to = m.0 }
                  db db'
                  (entitled
                    record {
                      event = e;
                      rule_id = r.id;
                      action_index = i;
                      staff_id = s.id;
                      to = m.0;
                    }
                    (
                      k,
                      s,
                      subst (λ n. find? (λ x. x.id == n) ss ≡ some s) (sym same) f,
                      in_scope-on t s y,
                      in_scope-allowed t s y,
                      m.1,
                    ))
                  (rw (m.1, y) at h)
            | inr n ↦ Keeps-refl db db' (rw (m.1, n) at h)
          ]
        ]

    priority-Keeps :
        (p : Option ℕ) (db db' : SlaDb)
        → ◌≡◌ {A = Tx SlaDb} (ok (set_priority t p db)) (ok db')
        → Keeps db db'
    priority-Keeps none db db' h = Keeps-refl db db' h
    priority-Keeps (some p) db db' h = subst (Keeps db) (ok-injective h) (refl, refl, λ q. q)

    note-Keeps :
        (r : EscalationRule) (n : Option ℕ) (db db' : SlaDb)
        → ◌≡◌ {A = Tx SlaDb} (ok (write_note t r n db)) (ok db')
        → Keeps db db'
    note-Keeps r none db db' h = Keeps-refl db db' h
    note-Keeps r (some n) db db' h = subst (Keeps db) (ok-injective h) (refl, refl, λ q. q)

    assign-Keeps : (s : Option ℕ) (db db' : SlaDb) → assign_to t s db ≡ ok db' → Keeps db db'
    unfolding assign_to
    assign-Keeps none db db' h = Keeps-refl db db' h
    assign-Keeps (some s) db db' h =
        elim (Bool-cases (is_some (find? (λ x. x.id == s && x.is_enabled) db.staff))) [
          | inl y ↦
              let h' : ok (update_ticket t.id (λ x. record x { owner_staff_id = some s }) db)
                  ≡ ok db' =
                rw y at h in
              subst (Keeps db) (ok-injective h') (refl, refl, λ q. q)
          | inr n ↦ let h' : err unavailable_assignee ≡ ok db' = rw n at h in absurd (cc)
        ]

    action-Keeps :
        (renders : Bool) (r : EscalationRule) (e : SlaEscalationEvent) (i : ℕ)
        (a : EscalationAction) (ty : ActionType) (db db' : SlaDb)
        → e.ticket_id ≡ t.id
        → db.staff ≡ ss
        → execute_action renders t r e i a ty db ≡ ok db'
        → Keeps db db'
    unfolding execute_action notify_staff assign_to
    action-Keeps renders r e i a notify db db' k f h =
        elim (Option-cases (truthy (or_else a.staff_id t.owner_staff_id))) [
          | inl n ↦ Keeps-refl db db' (rw n at h)
          | inr m ↦
              send-Keeps renders r e i m.0 (find? (λ s. s.id == m.0) db.staff) db db' k
                (ap (λ x. find? (λ s. s.id == m.0) x) (sym f)) (rw m.1 at h)
        ]
    action-Keeps renders r e i a change_priority db db' k f h =
        priority-Keeps (truthy a.priority_id) db db' h
    action-Keeps renders r e i a assign db db' k f h = assign-Keeps (truthy a.staff_id) db db' h
    action-Keeps renders r e i a add_note db db' k f h = note-Keeps r a.note db db' h
    action-Keeps renders r e i a mark_escalated db db' k f h =
        subst (Keeps db) (ok-injective h) (refl, refl, λ q. q)

    actions-Keeps :
        (renders : Bool) (r : EscalationRule) (e : SlaEscalationEvent) (i : ℕ)
        (as_ : List EscalationAction) (db db' : SlaDb)
        → e.ticket_id ≡ t.id
        → db.staff ≡ ss
        → execute_actions renders t r e i as_ db ≡ ok db'
        → Keeps db db'
    unfolding execute_actions
    actions-Keeps renders r e i [] db db' k f h = Keeps-refl db db' h
    actions-Keeps renders r e i (a ∷ more) db db' k f h =
        let m =
          bind-eq-ok (execute_action renders t r e i a a.action_type db)
            (λ d. execute_actions renders t r e (suc i) more d) h in
        let one = action-Keeps renders r e i a a.action_type db m.0 k f m.1 in
        Keeps-trans db m.0 db' one
          (actions-Keeps renders r e (suc i) more m.0 db' k (one.1 ∙ f) m.2)

    pub rules-Keeps :
        (renders : Bool) (e : SlaEscalationEvent) (rs : List EscalationRule) (db db' : SlaDb)
        → e.ticket_id ≡ t.id
        → db.staff ≡ ss
        → execute_rules renders t e rs db ≡ ok db'
        → Keeps db db'
    unfolding execute_rules
    rules-Keeps renders e [] db db' k f h = Keeps-refl db db' h
    rules-Keeps renders e (r ∷ rs) db db' k f h =
        let m =
          bind-eq-ok (execute_actions renders t r e 0 r.actions db)
            (λ d. execute_rules renders t e rs d) h in
        let one = actions-Keeps renders r e 0 r.actions db m.0 k f m.1 in
        Keeps-trans db m.0 db' one (rules-Keeps renders e rs m.0 db' k (one.1 ∙ f) m.2)
