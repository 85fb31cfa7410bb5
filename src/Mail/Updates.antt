-- ===== src/Mail/Updates.antt =====
-- What each update of the durable outbox in apps/api/src/modules/mail/mail.service.ts keeps of the
-- rows: which one may queue a row again, and under which attempt.
use kayaka_style_hd.Prelude.{
  ℕ, ◌+◌, ◌<◌, ◌≡◌, refl, false, ◌&&◌, Option, none, some, List, arith, ◌==◌, if◌then◌else◌,
  count_where, update_where,
}
use kayaka_style_hd.Mail.Store.{
  same_state, OutboundEmailState, queued, retry, sent, ambiguous, Diagnostic, lease_expired,
  OutboundEmail, MailDb,
}
use kayaka_style_hd.Mail.Outbox.{
  outbox_lease_ms, is_stale, released, is_id_or_any, mark_stale_processing_ambiguous, claimed,
  is_claimable, claim, is_fenced, settle_row, extend_lease, accepted_row, mark_sent,
}
use kayaka_style_hd.Mail.Workers.{is}
use kayaka_style_hd.Mail.Rows.{
  released-IsSound, claimed-IsSound, accepted-IsSound, extended-IsSound, none_freed, quiet-Keeps,
  Keeps,
}

-- The attempt whose result an update settles.
abbrev pub frees : OutboundEmail → ℕ → ℕ
frees e id = if e.id == id then 1 else 0

pub mark_sent-emails :
    (now : ℕ) (e : OutboundEmail) (owner : ℕ) (db : MailDb)
    → (mark_sent now e owner db).0.emails
      ≡ update_where (is_fenced e.id owner e.lease_version) (accepted_row now) db.emails
unfolding mark_sent settle_row
mark_sent-emails now e owner db = ground arith

module _ {accepted retried : List ℕ} where
  pub stale-Keeps :
      (now : ℕ) (id : Option ℕ) (db : MailDb)
      → Keeps accepted retried none_freed db.emails
          (mark_stale_processing_ambiguous now id db).0.emails
  unfolding mark_stale_processing_ambiguous
  stale-Keeps now id db =
      quiet-Keeps (λ r. is_id_or_any id r && is_stale now r)
        (released ambiguous none (some lease_expired)) db.emails (λ r. refl) (λ r p. refl)
        (λ r p s.
          released-IsSound accepted retried r ambiguous none (some lease_expired) refl refl refl s)

  pub claim-Keeps :
      (now owner id : ℕ) (db : MailDb)
      → Keeps accepted retried none_freed db.emails (claim now owner id db).0.emails
  unfolding claim
  claim-Keeps now owner id db =
      quiet-Keeps (is_claimable now id) (claimed now owner) db.emails (λ r. refl) (λ r p. refl)
        (claimed-IsSound accepted retried now owner id)

  pub extend_lease-Keeps :
      (now id owner version : ℕ) (db : MailDb)
      → Keeps accepted retried none_freed db.emails (extend_lease now id owner version db).emails
  unfolding extend_lease settle_row
  extend_lease-Keeps now id owner version db =
      quiet-Keeps (is_fenced id owner version)
        (λ r. record r { lease_expires_at = some (now + outbox_lease_ms) }) db.emails (λ r. refl)
        (λ r p. ground arith)
        (λ r p s. extended-IsSound accepted retried (some (now + outbox_lease_ms)) r s)

  -- The end of a lease in a state that neither waits nor is `SENT`.
  pub released-Keeps :
      (id owner version : ℕ) (state : OutboundEmailState) (next : Option ℕ)
      (why : Option Diagnostic) (db : MailDb)
      → same_state state queued ≡ false
      → same_state state retry ≡ false
      → same_state state sent ≡ false
      → Keeps accepted retried none_freed db.emails
          (settle_row id owner version (released state next why) db).emails
  unfolding settle_row
  released-Keeps id owner version state next why db h k l =
      quiet-Keeps (is_fenced id owner version) (released state next why) db.emails (λ r. refl)
        (λ r p. rw (h, k) refl)
        (λ r p s. released-IsSound accepted retried r state next why h k l s)

  pub mark_sent-Keeps :
      (now : ℕ) (e : OutboundEmail) (owner : ℕ) (db : MailDb)
      → 0 < count_where (is e.id) accepted
      → Keeps accepted retried none_freed db.emails (mark_sent now e owner db).0.emails
  mark_sent-Keeps now e owner db h = rw (mark_sent-emails now e owner db) (
      quiet-Keeps (is_fenced e.id owner e.lease_version) (accepted_row now) db.emails (λ r. refl)
        (λ r p. refl)
        (λ r p s.
          let same : r.id ≡ e.id = ground arith in
          accepted-IsSound accepted retried now r (rw same h) s))
