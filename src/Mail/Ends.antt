-- ===== src/Mail/Ends.antt =====
-- How the attempts of `processOutboundEmail` in apps/api/src/modules/mail/mail.service.ts end, and
-- when an error leads to another one.
use kayaka_style_hd.Prelude.{
  ℕ, suc, ◌+◌, ◌-◌, ◌≤◌, ◌<◌, ◌≡◌, refl, sym, ◌∙◌, subst, ◌⊎◌, inl, inr, ◌∷◌, ◌||◌, any, Bool, true,
  false, Option, none, some, [], arith, leb, Bool-cases, count_where-update_where_same,
}
use native.Mathlib.Nat.{one-le-pow}
use text.Mathlib.Text.{◌==◌ as str_eq}
use kayaka_style_hd.Mail.Store.{
  email_by_id, retry, failed, ambiguous, OutboundEmailState, Failure, OutboundEmail, MailDb, Config,
}
use kayaka_style_hd.Mail.Outbox.{
  outbox_max_attempts, is_due, claimed, is_fenced, settle_row, accepted_row, retry_at,
  classify_failure, failed_row, record_delivery_failure,
}
use kayaka_style_hd.Mail.Delivery.{
  can_be_sent, start_delivery, local_failure, settle_result, finish_delivery, deliver_started,
  process_outbound_email, SmtpResult, accepts, fails,
}
use kayaka_style_hd.Mail.Workers.{has_id, IsUncertain}
use kayaka_style_hd.Mail.Rows.{waits, UniqueIds}
use kayaka_style_hd.Mail.Updates.{mark_sent-emails}
use kayaka_style_hd.Mail.Failures.{classify_failure-cases, uncertain-ambiguous}
use kayaka_style_hd.Mail.Effects.{settled, attempted, processed_row}
use kayaka_style_hd.Mail.Claims.{start_delivery-Starts}

-- An error that the relay is known to have answered for good.
abbrev pub is_permanent : Failure → Bool
is_permanent e = elim e.response_code [ none ↦ false | some code ↦ leb 500 code ]

retry_at_bounds : (now n : ℕ) → (now + 60_000 ≤ retry_at now n) × (retry_at now n ≤ now + 3_600_000)
unfolding retry_at
retry_at_bounds now n = let one = one-le-pow (n - 1) 2 (omega arith) in (omega arith, omega arith)

retry-certain :
    (now : ℕ) (e : Failure) (n : ℕ) (next : Option ℕ)
    → classify_failure now e n ≡ (retry, next)
    → ¬ IsUncertain e
retry-certain now e n next h u = let k = uncertain-ambiguous now e n u in absurd (cc)

-- The relay has answered with a code from 400 on.
abbrev pub is_answered : Failure → Bool
is_answered e = elim e.response_code [ none ↦ false | some code ↦ leb 400 code ]

-- A broken, timed-out or refused connection.
abbrev pub is_broken : Failure → Bool
is_broken e =
    any (λ c. str_eq e.code c)
      ("ECONNRESET" ∷ "ECONNABORTED" ∷ "ETIMEDOUT" ∷ "ESOCKET" ∷ "EPIPE" ∷ "ECONNREFUSED" ∷ [])
    || e.tells_of_disconnect

-- The verdict on an error after `n` attempts: another one, an outcome that an operator has to find
-- out, or none.
pub data Verdict (now : ℕ) (e : Failure) (n : ℕ) : OutboundEmailState × Option ℕ → Type 0 where
  again :
      (t : ℕ)
      → n < 5
      → is_permanent e ≡ false
      → ¬ IsUncertain e
      → now + 60_000 ≤ t
      → t ≤ now + 3_600_000
      → Verdict now e n (retry, some t)
  unknown : is_answered e ≡ false → is_broken e ≡ true → Verdict now e n (ambiguous, none)
  given_up : (is_permanent e ≡ true) ⊎ (5 ≤ n) → Verdict now e n (failed, none)

failed-given_up :
    (now : ℕ) (e : Failure) (n : ℕ)
    → classify_failure now e n ≡ (failed, none)
    → (is_permanent e ≡ true) ⊎ (5 ≤ n)
unfolding classify_failure
failed-given_up now e n h = ground arith

ambiguous-unknown :
    (now : ℕ) (e : Failure) (n : ℕ)
    → classify_failure now e n ≡ (ambiguous, none)
    → (is_answered e ≡ false) × (is_broken e ≡ true)
unfolding classify_failure
ambiguous-unknown now e n h = ground arith

retry-temporary :
    (now : ℕ) (e : Failure) (n : ℕ) (next : Option ℕ)
    → classify_failure now e n ≡ (retry, next)
    → is_permanent e ≡ false
unfolding classify_failure
retry-temporary now e n next h = ground arith

-- The verdict on every error. Another attempt, between a minute and an hour later, comes only before
-- the fifth, without an answer from 500 on, and not after a lost or timed-out connection without an
-- answer (ECONNRESET, ECONNABORTED, ETIMEDOUT, ESOCKET, EPIPE, or a message that tells of one). The
-- outcome is left to an operator only for a broken or refused connection without an answer from 400
-- on. The command fails only for an answer from 500 on, or from the fifth attempt on.
pub classify_failure-Verdict :
    (now : ℕ) (e : Failure) (n : ℕ) → Verdict now e n (classify_failure now e n)
classify_failure-Verdict now e n = elim (classify_failure-cases now e n) [
  | inl h ↦ rw h (given_up (failed-given_up now e n h))
  | inr (inl h) ↦ let (a, b) = ambiguous-unknown now e n h in rw h (unknown a b)
  | inr (inr (l, h)) ↦
      let (low, high) = retry_at_bounds now n in
      rw h (
        again (retry_at now n) l (retry-temporary now e n _ h) (retry-certain now e n _ h) low high)
]

settle_row-UniqueIds :
    (id owner version : ℕ) (f : OutboundEmail → OutboundEmail) (db : MailDb)
    → ((x : OutboundEmail) → (f x).id ≡ x.id)
    → UniqueIds db.emails
    → UniqueIds (settle_row id owner version f db).emails
unfolding settle_row
settle_row-UniqueIds id owner version f db same u i =
    rw
      (count_where-update_where_same (has_id i) (is_fenced id owner version) f db.emails
        (λ x p. let h = same x in rw h refl))
      (u i)

settle_result-UniqueIds :
    (now : ℕ) (e : OutboundEmail) (owner : ℕ) (s : SmtpResult) (db : MailDb)
    → UniqueIds db.emails
    → UniqueIds (settle_result now e owner s db).emails
unfolding record_delivery_failure settle_row
settle_result-UniqueIds now e owner accepts db u =
    rw (mark_sent-emails now e owner db)
      (settle_row-UniqueIds e.id owner e.lease_version (accepted_row now) db (λ x. refl) u)
settle_result-UniqueIds now e owner (fails why) db u =
    settle_row-UniqueIds e.id owner e.lease_version
      (failed_row (classify_failure now why e.attempts) why) db (λ x. refl) u

finish_delivery-UniqueIds :
    (now : ℕ) (e : OutboundEmail) (owner : ℕ) (s : SmtpResult) (db : MailDb)
    → UniqueIds db.emails
    → UniqueIds (finish_delivery now e owner s db).emails
unfolding finish_delivery
finish_delivery-UniqueIds now e owner s db u = elim (Bool-cases (can_be_sent e)) [
  | inl t ↦ rw t (settle_result-UniqueIds now e owner s db u)
  | inr t ↦ rw t (settle_result-UniqueIds now e owner (fails local_failure) db u)
]

deliver_started-UniqueIds :
    (later owner : ℕ) (s : SmtpResult) (d : MailDb × Option OutboundEmail)
    → UniqueIds d.0.emails
    → UniqueIds (deliver_started later owner s d).emails
deliver_started-UniqueIds later owner s (db, none) u = u
deliver_started-UniqueIds later owner s (db, some e) u =
    finish_delivery-UniqueIds later e owner s db u

processed-UniqueIds :
    (c : Config) (now later owner id : ℕ) (s : SmtpResult) (db : MailDb)
    → UniqueIds db.emails
    → UniqueIds (process_outbound_email c now later owner id s db).emails
unfolding process_outbound_email
processed-UniqueIds c now later owner id s db u =
    let k = start_delivery-Starts {accepted = []} {retried = []} c now owner id db in
    deliver_started-UniqueIds later owner s (start_delivery c now owner id db) (k.unique u)

-- Deliveries of one command, each at a time at which it is due.
pub data Rounds (c : Config) (id : ℕ) : ℕ → MailDb → MailDb → Type 0 where
  stop : (db : MailDb) → Rounds c id 0 db db
  round :
      (n now later owner : ℕ) (s : SmtpResult) (db end : MailDb) (r : OutboundEmail)
      → email_by_id id db ≡ some r
      → is_due now r ≡ true
      → Rounds c id n (process_outbound_email c now later owner id s db) end
      → Rounds c id (suc n) db end

settled-waits :
    (later now owner : ℕ) (s : SmtpResult) (r : OutboundEmail)
    → waits (settled later s (claimed now owner r)) ≡ true
    → r.attempts + 1 < outbox_max_attempts
settled-waits later now owner accepts r w = absurd (cc)
settled-waits later now owner (fails why) r w =
    ground (arith, classify_failure-cases later why (r.attempts + 1))

settled-id :
    (later now owner : ℕ) (s : SmtpResult) (r : OutboundEmail)
    → (settled later s (claimed now owner r)).id ≡ r.id
settled-id later now owner accepts r = refl
settled-id later now owner (fails why) r = refl

settled-attempts :
    (later now owner : ℕ) (s : SmtpResult) (r : OutboundEmail)
    → (settled later s (claimed now owner r)).attempts ≡ r.attempts + 1
settled-attempts later now owner accepts r = refl
settled-attempts later now owner (fails why) r = refl

attempts_end :
    (c : Config) (id n : ℕ) (db end : MailDb) (r : OutboundEmail)
    → c.outbound_enabled ≡ true
    → c.canary ≡ none
    → UniqueIds db.emails
    → r.id ≡ id
    → email_by_id id db ≡ some r
    → (waits r ≡ true → r.attempts < outbox_max_attempts)
    → r.attempts ≤ outbox_max_attempts
    → Rounds c id n db end
    → r.attempts + n ≤ outbox_max_attempts
attempts_end c id _ _ _ r on free u e here w l (stop d) = omega arith
attempts_end c id _ _ _ r on free u e here w l (round m now later owner s db end q found due rest) =
    let same : q ≡ r = cc in
    let due_here : is_due now r ≡ true = subst (λ x. is_due now x ≡ true) same due in
    let next = settled later (attempted r s) (claimed now owner r) in
    let below : r.attempts < outbox_max_attempts = w (ground arith) in
    let first =
      processed_row c now later owner s db r on free u
        (subst (λ i. email_by_id i db ≡ some r) (sym e) here) due_here in
    let count = settled-attempts later now owner (attempted r s) r in
    let more =
      attempts_end c id m (process_outbound_email c now later owner id s db) end next on free
        (processed-UniqueIds c now later owner id s db u)
        (settled-id later now owner (attempted r s) r ∙ e)
        (subst (λ i. email_by_id i (process_outbound_email c now later owner i s db) ≡ some next) e
          first)
        (λ t. let k = settled-waits later now owner (attempted r s) r t in omega arith)
        (omega arith) rest in
    omega arith

-- A command that no operator retries is not delivered for ever: of a command that waits below five
-- attempts, at most five minus its attempts deliveries find it due, whatever the relay answers.
pub deliveries_end :
    (c : Config) (n : ℕ) (db end : MailDb) (r : OutboundEmail)
    → c.outbound_enabled ≡ true
    → c.canary ≡ none
    → UniqueIds db.emails
    → email_by_id r.id db ≡ some r
    → (waits r ≡ true → r.attempts < outbox_max_attempts)
    → r.attempts ≤ outbox_max_attempts
    → Rounds c r.id n db end
    → r.attempts + n ≤ outbox_max_attempts
deliveries_end c n db end r on free u here w l rounds =
    attempts_end c r.id n db end r on free u refl here w l rounds
