-- ===== src/Mail/Once.antt =====
-- Workers on the durable outbox of apps/api/src/modules/mail/mail.service.ts in any order: how often a
-- command is transmitted, and what its row says of that.
use kayaka_style_hd.Prelude.{
  ℕ, ◌+◌, ◌≤◌, ◌<◌, ◌≡◌, refl, sym, ap, subst, inl, inr, Bool, true, ◌&&◌, none, some, List, [],
  ◌∷◌, ◌++◌, arith, Bool-cases, All, All-map, count_where, keep, All-keep_if,
}
use mathlib.Core.List.{Memᴰ}
use mathlib.Core.List.Memᴰ
use kayaka_style_hd.Mail.Store.{
  same_state, sent, ambiguous, not_persisted, OutboundEmail, MailDb, Config,
}
use kayaka_style_hd.Mail.Outbox.{
  outbox_max_attempts, extend_lease, mark_sent, mark_ambiguous_after_smtp_acceptance,
  record_delivery_failure,
}
use kayaka_style_hd.Mail.Delivery.{
  start_delivery, retry_outbound_email, canary_id, is_canary_approved, recover_durable_outbox,
}
use kayaka_style_hd.Mail.Workers.{
  is, Attempt, System, Step, create, start, start_nothing, heartbeat, accept, accept_unnoticed,
  reject, die, die_accepted, settle, settle_ambiguous, recover, retry_by_operator, Reach, begin,
  step,
}
use kayaka_style_hd.Mail.Rows.{none_freed, same-Keeps, IsSound, Keeps}
use kayaka_style_hd.Mail.Updates.{stale-Keeps, extend_lease-Keeps, released-Keeps, mark_sent-Keeps}
use kayaka_style_hd.Mail.Failures.{freed-Keeps, uncertain-Keeps, failure-Keeps}
use kayaka_style_hd.Mail.Claims.{taken, start_delivery-Starts}
use kayaka_style_hd.Mail.Requeue.{retry-Requeues}
use kayaka_style_hd.Mail.Invariant.{
  IsCounted, WasAccepted, keep-IsValid, All-remove, end-IsValid, accepted-IsValid,
  handed_over-IsValid, IsValid,
}
use kayaka_style_hd.Mail.Creation.{create-IsValid}

start-IsValid :
    (c : Config) (s : System) (now owner id : ℕ) (e : OutboundEmail)
    → (start_delivery c now owner id s.db).1 ≡ some e
    → IsValid s
    → IsValid (record s {
      db = (start_delivery c now owner id s.db).0;
      running = record { email = e; owner = owner } ∷ s.running;
    })
unfolding count_where
start-IsValid c s now owner id e h v =
    let k = start_delivery-Starts c now owner id s.db in
    record {
      slots = λ i. let n = ap (λ o. taken o i) h in omega (arith, k.slots i, v.slots i);
      unique = k.unique v.unique;
      sound = k.sound v.sound;
      running_counted = (k.counted v.sound e h, v.running_counted);
      handed_counted = v.handed_counted;
      handed_accepted = v.handed_accepted;
    }

start_nothing-Keeps :
    (c : Config) (accepted retried : List ℕ) (now owner id : ℕ) (db : MailDb)
    → (start_delivery c now owner id db).1 ≡ none
    → Keeps accepted retried none_freed db.emails (start_delivery c now owner id db).0.emails
start_nothing-Keeps c accepted retried now owner id db h =
    let k = start_delivery-Starts c now owner id db in
    record { slots = λ i. omega (arith, k.slots i); unique = k.unique; sound = k.sound }

recover-Keeps :
    (c : Config) (accepted retried : List ℕ) (now : ℕ) (db : MailDb)
    → Keeps accepted retried none_freed db.emails (recover_durable_outbox c now db).0.emails
unfolding recover_durable_outbox
recover-Keeps c accepted retried now db =
    elim (Bool-cases (c.outbound_enabled && is_canary_approved c db)) [
      | inl t ↦ rw t (stale-Keeps now (canary_id c) db)
      | inr t ↦ rw t (same-Keeps db.emails)
    ]

retry-IsValid :
    (c : Config) (s : System) (visible : OutboundEmail → Bool) (id : ℕ) (db : MailDb)
    → retry_outbound_email c visible id s.db ≡ some db
    → IsValid s
    → IsValid (record s { db = db; retried = id ∷ s.retried })
unfolding count_where
retry-IsValid c s visible id db h v =
    let k = retry-Requeues c visible id s.db db h in
    record {
      slots = λ i. omega (arith, k.slots i, v.slots i);
      unique = k.unique v.unique;
      sound = k.sound v.sound;
      running_counted = v.running_counted;
      handed_counted = v.handed_counted;
      handed_accepted = v.handed_accepted;
    }

now-WasAccepted : (accepted : List ℕ) (a : Attempt) → WasAccepted (a.email.id ∷ accepted) a
unfolding count_where
now-WasAccepted accepted a = ground arith

not_persisted-Keeps :
    {accepted retried : List ℕ} (e : OutboundEmail) (owner : ℕ) (db : MailDb)
    → Keeps accepted retried none_freed db.emails
        (mark_ambiguous_after_smtp_acceptance e owner db).emails
unfolding mark_ambiguous_after_smtp_acceptance
not_persisted-Keeps e owner db =
    released-Keeps e.id owner e.lease_version ambiguous none (some not_persisted) db refl refl refl

All-Memᴰ {ℓ κ} : {A : Type ℓ} (P : A → Type κ) {x : A} {xs : List A} → Memᴰ x xs → All P xs → P x
All-Memᴰ P {xs = []} m h = absurd (Memᴰ.not-nil m)
All-Memᴰ P {xs = y ∷ xs} m h = elim (Memᴰ.cases_cons m) [
  | inl e ↦ subst P (sym e) h.0
  | inr n ↦ All-Memᴰ P n h.1
]

-- Every step keeps the invariant.
pub Step-IsValid : (c : Config) {s t : System} → Step c s t → IsValid s → IsValid t
Step-IsValid c (create s r n) v = create-IsValid s r n v
Step-IsValid c (start s now owner id e h) v = start-IsValid c s now owner id e h v
Step-IsValid c (start_nothing s now owner id h) v =
    keep-IsValid s (start_delivery c now owner id s.db).0
      (start_nothing-Keeps c s.accepted s.retried now owner id s.db h) v
Step-IsValid c (heartbeat s now id owner version) v =
    keep-IsValid s (extend_lease now id owner version s.db)
      (extend_lease-Keeps now id owner version s.db) v
Step-IsValid c (accept s before after a e) v =
    let w = accepted-IsValid s s.db before after a e (same-Keeps s.db.emails) v in
    let counted =
      (All-remove IsCounted before after a (subst (All IsCounted) e v.running_counted)).0 in
    handed_over-IsValid (record s { running = before ++ after; accepted = a.email.id ∷ s.accepted })
      a counted (now-WasAccepted s.accepted a) w
Step-IsValid c (accept_unnoticed s now before after a f e u) v =
    accepted-IsValid s (record_delivery_failure now a.email a.owner f s.db) before after a e
      (uncertain-Keeps now a.email a.owner f s.db u) v
Step-IsValid c (reject s now before after a f e) v =
    end-IsValid s (record_delivery_failure now a.email a.owner f s.db) before after a e
      (failure-Keeps now a.email a.owner f s.db v.unique
        (All-remove IsCounted before after a (subst (All IsCounted) e v.running_counted)).0)
      v
Step-IsValid c (die s before after a e) v =
    end-IsValid s s.db before after a e (freed-Keeps a.email (same-Keeps s.db.emails)) v
Step-IsValid c (die_accepted s before after a e) v =
    accepted-IsValid s s.db before after a e (same-Keeps s.db.emails) v
Step-IsValid c (settle s now a m) v =
    keep-IsValid s (mark_sent now a.email a.owner s.db).0
      (mark_sent-Keeps now a.email a.owner s.db
        (All-Memᴰ (WasAccepted s.accepted) m v.handed_accepted))
      v
Step-IsValid c (settle_ambiguous s a m) v =
    keep-IsValid s (mark_ambiguous_after_smtp_acceptance a.email a.owner s.db)
      (not_persisted-Keeps a.email a.owner s.db) v
Step-IsValid c (recover s now) v =
    keep-IsValid s (recover_durable_outbox c now s.db).0
      (recover-Keeps c s.accepted s.retried now s.db) v
Step-IsValid c (retry_by_operator s visible id db h) v = retry-IsValid c s visible id db h v

pub Reach-IsValid : (c : Config) {s : System} → Reach c s → IsValid s
unfolding count_where
Reach-IsValid c (begin db e) = record {
  slots = λ id. rw e (omega arith);
  unique = λ id. rw e (omega arith);
  sound = rw e tt;
  running_counted = tt;
  handed_counted = tt;
  handed_accepted = tt;
}
Reach-IsValid c (step r t) = Step-IsValid c t (Reach-IsValid c r)

-- In every run of workers, recovery scans and operators, the relay accepts the transmission of a
-- command at most once, and once more for each retry that an operator asked for, provided that a
-- worker whose message was taken sees the acceptance, dies, or gets an error without a response code
-- that is one of ECONNRESET, ECONNABORTED, ETIMEDOUT, ESOCKET and EPIPE, or whose message tells of a
-- timeout or a lost connection.
pub accepted_once :
    (c : Config) {s : System}
    → Reach c s
    → (id : ℕ) → count_where (is id) s.accepted ≤ 1 + count_where (is id) s.retried
accepted_once c r id = let v = Reach-IsValid c r in omega (arith, v.slots id)

-- In every run, each row of the outbox has at most five attempts, and one more for each retry that an
-- operator asked for, and each row that is `SENT` belongs to a command that the relay has accepted.
pub rows_true :
    (c : Config) {s : System}
    → Reach c s
    → All (λ r. r.attempts ≤ outbox_max_attempts + count_where (is r.id) s.retried) s.db.emails
      × All
          (λ r. 0 < count_where (is r.id) s.accepted)
          (keep (λ r. same_state r.state sent) s.db.emails)
rows_true c {s} r =
    let v = Reach-IsValid c r in
    (
      All-map (IsSound s.accepted s.retried)
          (λ e. e.attempts ≤ outbox_max_attempts + count_where (is e.id) s.retried)
          (λ e h. let b = h.bounded in omega arith) s.db.emails v.sound,
      All-keep_if (λ e. 0 < count_where (is e.id) s.accepted) (λ e. same_state e.state sent)
          s.db.emails
          (All-map (IsSound s.accepted s.retried)
            (λ e. same_state e.state sent ≡ true → 0 < count_where (is e.id) s.accepted)
            (λ e h. h.honest) s.db.emails v.sound),
    )
