-- ===== src/Mail/Failures.antt =====
-- The failed deliveries, the operator's retries and the claims of the durable outbox in
-- apps/api/src/modules/mail/mail.service.ts: the updates that move a row between the waiting rows and
-- the attempts.
use kayaka_style_hd.Prelude.{
  ℕ, ◌+◌, ◌≤◌, ◌<◌, ◌≡◌, refl, ◌⊎◌, inl, inr, true, false, Option, none, some, List, arith, ◌==◌,
  Bool-cases, count_where, update_where, count_where-update_where_same, count_where-update_where_le,
  count_where_mono, count_where-update_where_le_add, All-update_where,
}
use kayaka_style_hd.Mail.Store.{
  retry, failed, ambiguous, Failure, Diagnostic, delivery_failed, OutboundEmail, MailDb,
}
use kayaka_style_hd.Mail.Outbox.{
  outbox_max_attempts, released, is_fenced, settle_row, retry_at, bounded_retry, classify_failure,
  record_delivery_failure,
}
use kayaka_style_hd.Mail.Workers.{
  has_id, IsUncertain, was_reset, was_aborted, timed_out, socket_failed, pipe_broke, told_of,
}
use kayaka_style_hd.Mail.Rows.{waits_for, UniqueIds, none_freed, IsSound, Keeps}
use kayaka_style_hd.Mail.Updates.{frees, released-Keeps}

bounded_retry-cases :
    (now n : ℕ)
    → (bounded_retry now n ≡ (failed, none))
      ⊎ ((n < outbox_max_attempts) × (bounded_retry now n ≡ (retry, some (retry_at now n))))
bounded_retry-cases now n = ground arith

-- The three verdicts on an error.
pub classify_failure-cases :
    (now : ℕ) (e : Failure) (n : ℕ)
    → (classify_failure now e n ≡ (failed, none))
      ⊎ ((classify_failure now e n ≡ (ambiguous, none))
          ⊎ ((n < outbox_max_attempts)
              × (classify_failure now e n ≡ (retry, some (retry_at now n)))))
unfolding classify_failure
classify_failure-cases now e n = ground (arith, bounded_retry-cases now n)

pub uncertain-ambiguous :
    (now : ℕ) (e : Failure) (n : ℕ) → IsUncertain e → classify_failure now e n ≡ (ambiguous, none)
unfolding classify_failure
uncertain-ambiguous now e n (was_reset a c) = rw (a, c) refl
uncertain-ambiguous now e n (was_aborted a c) = rw (a, c) refl
uncertain-ambiguous now e n (timed_out a c) = rw (a, c) refl
uncertain-ambiguous now e n (socket_failed a c) = rw (a, c) refl
uncertain-ambiguous now e n (pipe_broke a c) = rw (a, c) refl
uncertain-ambiguous now e n (told_of a c) = rw a (ground arith)

fenced-le-one :
    (id owner version : ℕ) (rs : List OutboundEmail)
    → UniqueIds rs
    → count_where (is_fenced id owner version) rs ≤ 1
fenced-le-one id owner version rs u = omega (
  arith,
  u id,
  count_where_mono (is_fenced id owner version) (has_id id) rs (λ r p. ground arith),
)

fenced-no_other :
    (id owner version other : ℕ) (f : OutboundEmail → OutboundEmail) (rs : List OutboundEmail)
    → ((r : OutboundEmail) → (f r).id ≡ r.id)
    → (id == other) ≡ false
    → count_where (waits_for other) (update_where (is_fenced id owner version) f rs)
      ≤ count_where (waits_for other) rs
fenced-no_other id owner version other f rs same h =
    count_where-update_where_le (waits_for other) (is_fenced id owner version) f rs
      λ r p w. let k = same r in ground arith

-- An update of the one fenced row queues at most that row.
fenced-slots :
    (e : OutboundEmail) (owner : ℕ) (f : OutboundEmail → OutboundEmail) (rs : List OutboundEmail)
    → ((r : OutboundEmail) → (f r).id ≡ r.id)
    → UniqueIds rs
    → (id : ℕ)
    → count_where (waits_for id) (update_where (is_fenced e.id owner e.lease_version) f rs)
      ≤ count_where (waits_for id) rs + frees e id
fenced-slots e owner f rs same u id = elim (Bool-cases (e.id == id)) [
  | inl t ↦ rw t (
      omega (
        arith,
        fenced-le-one e.id owner e.lease_version rs u,
        count_where-update_where_le_add (waits_for id) (is_fenced e.id owner e.lease_version) f rs,
      ))
  | inr t ↦ rw t (omega (arith, fenced-no_other e.id owner e.lease_version id f rs same t))
]

module _ {accepted retried : List ℕ} where
  again-IsSound :
      (e : OutboundEmail) (owner t : ℕ) (why : Option Diagnostic) (r : OutboundEmail)
      → e.attempts ≡ e.lease_version
      → e.attempts < outbox_max_attempts
      → is_fenced e.id owner e.lease_version r ≡ true
      → IsSound accepted retried r
      → IsSound accepted retried (released retry (some t) why r)
  again-IsSound e owner t why r c l p s = record {
    counted = s.counted;
    bounded =
        let k = s.counted in
        let v : r.lease_version ≡ e.lease_version = ground arith in omega arith;
    honest = λ e. absurd (cc);
  }

  again-Keeps :
      (e : OutboundEmail) (owner t : ℕ) (why : Option Diagnostic) (rs : List OutboundEmail)
      → UniqueIds rs
      → e.attempts ≡ e.lease_version
      → e.attempts < outbox_max_attempts
      → Keeps accepted retried
          (frees e)
          rs
          (update_where (is_fenced e.id owner e.lease_version) (released retry (some t) why) rs)
  again-Keeps e owner t why rs u c l = record {
    slots = fenced-slots e owner (released retry (some t) why) rs (λ r. refl) u;
    unique = λ u id.
        rw
          (count_where-update_where_same (has_id id) (is_fenced e.id owner e.lease_version)
            (released retry (some t) why) rs λ r p. refl)
          (u id);
    sound = λ a.
        All-update_where (IsSound accepted retried) (is_fenced e.id owner e.lease_version)
          (released retry (some t) why) rs (λ r p s. again-IsSound e owner t why r c l p s) a;
  }

  pub freed-Keeps :
      (e : OutboundEmail) {rs ss : List OutboundEmail}
      → Keeps accepted retried none_freed rs ss
      → Keeps accepted retried (frees e) rs ss
  freed-Keeps e k = record {
    slots = λ id. omega (arith, k.slots id);
    unique = k.unique;
    sound = k.sound;
  }

  pub uncertain-Keeps :
      (now : ℕ) (e : OutboundEmail) (owner : ℕ) (why : Failure) (db : MailDb)
      → IsUncertain why
      → Keeps accepted retried none_freed db.emails
          (record_delivery_failure now e owner why db).emails
  unfolding record_delivery_failure
  uncertain-Keeps now e owner why db h = rw (uncertain-ambiguous now why e.attempts h) (
      released-Keeps e.id owner e.lease_version ambiguous none (some (delivery_failed why)) db refl
        refl refl)

  -- A failed attempt frees its row, as far as the row's attempts allow.
  pub failure-Keeps :
      (now : ℕ) (e : OutboundEmail) (owner : ℕ) (why : Failure) (db : MailDb)
      → UniqueIds db.emails
      → e.attempts ≡ e.lease_version
      → Keeps accepted retried
          (frees e)
          db.emails
          (record_delivery_failure now e owner why db).emails
  unfolding record_delivery_failure settle_row
  failure-Keeps now e owner why db u c = elim (classify_failure-cases now why e.attempts) [
    | inl h ↦ rw h (
        freed-Keeps e (
          released-Keeps e.id owner e.lease_version failed none (some (delivery_failed why)) db refl
            refl refl))
    | inr (inl h) ↦ rw h (
        freed-Keeps e (
          released-Keeps e.id owner e.lease_version ambiguous none (some (delivery_failed why)) db
            refl refl refl))
    | inr (inr (l, h)) ↦
        rw h (
          again-Keeps e owner (retry_at now e.attempts) (some (delivery_failed why)) db.emails u c
            l)
  ]
