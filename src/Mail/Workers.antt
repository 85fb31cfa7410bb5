-- ===== src/Mail/Workers.antt =====
-- Workers, recovery scans and operators on one outbox, in any order: the parts of
-- `processOutboundEmail`, `extendLease`, `recoverDurableOutbox` and `retryOutboundEmail` in
-- apps/api/src/modules/mail/mail.service.ts as steps. The checks and the claim of `start_delivery`
-- are one step; each of its updates carries its own condition.
use mathlib.Core.List.{Memᴰ}
use kayaka_style_hd.Prelude.{ℕ, ◌≡◌, Bool, true, none, some, List, [], ◌∷◌, ◌++◌, ◌==◌, count_where}
use kayaka_style_hd.Mail.Store.{queued, Failure, OutboundEmail, MailDb, Config}
use kayaka_style_hd.Mail.Outbox.{
  extend_lease, mark_sent, mark_ambiguous_after_smtp_acceptance, record_delivery_failure,
}
use kayaka_style_hd.Mail.Delivery.{start_delivery, retry_outbound_email, recover_durable_outbox}

-- A claimed row in the hands of a worker.
pub record Attempt : Type 0 where
  pub email : OutboundEmail
  pub owner : ℕ

-- The tables; the attempts before their SMTP result, and those that the relay has accepted; and, of
-- the past, the ids of the accepted transmissions and of the operators' retries.
pub record System : Type 0 where
  pub db : MailDb
  pub running : List Attempt
  pub handed_over : List Attempt
  pub accepted : List ℕ
  pub retried : List ℕ

abbrev pub has_id : ℕ → OutboundEmail → Bool
has_id id r = r.id == id

abbrev pub is_for : ℕ → Attempt → Bool
is_for id a = a.email.id == id

abbrev pub is : ℕ → ℕ → Bool
is id x = x == id

-- A new command: an id that nothing has used, waiting, with no attempt made.
pub record IsNew (r : OutboundEmail) (s : System) : Type 0 where
  pub unstored : count_where (has_id r.id) s.db.emails ≡ 0
  pub not_running : count_where (is_for r.id) s.running ≡ 0
  pub not_accepted : count_where (is r.id) s.accepted ≡ 0
  pub is_queued : r.state ≡ queued
  pub no_attempts : r.attempts ≡ 0
  pub no_leases : r.lease_version ≡ 0

-- What is taken of the SMTP library and the network: where the relay has taken the message and the
-- worker gets an error all the same, the error is that of a lost or timed-out connection, without an
-- answer of the relay.
pub data IsUncertain (e : Failure) : Type 0 where
  was_reset : e.response_code ≡ none → e.code ≡ "ECONNRESET" → IsUncertain e
  was_aborted : e.response_code ≡ none → e.code ≡ "ECONNABORTED" → IsUncertain e
  timed_out : e.response_code ≡ none → e.code ≡ "ETIMEDOUT" → IsUncertain e
  socket_failed : e.response_code ≡ none → e.code ≡ "ESOCKET" → IsUncertain e
  pipe_broke : e.response_code ≡ none → e.code ≡ "EPIPE" → IsUncertain e
  told_of : e.response_code ≡ none → e.tells_of_disconnect ≡ true → IsUncertain e

pub data Step (c : Config) : System → System → Type 0 where
  create :
      (s : System) (r : OutboundEmail)
      → IsNew r s
      → Step c s (record s { db = record (s.db) { emails = s.db.emails ++ r ∷ [] } })
  -- A worker has claimed a row, or has not.
  start :
      (s : System) (now owner id : ℕ) (e : OutboundEmail)
      → (start_delivery c now owner id s.db).1 ≡ some e
      → Step c s (record s {
        db = (start_delivery c now owner id s.db).0;
        running = record { email = e; owner = owner } ∷ s.running;
      })
  start_nothing :
      (s : System) (now owner id : ℕ)
      → (start_delivery c now owner id s.db).1 ≡ none
      → Step c s (record s { db = (start_delivery c now owner id s.db).0 })
  heartbeat :
      (s : System) (now id owner version : ℕ)
      → Step c s (record s { db = extend_lease now id owner version s.db })
  -- The relay accepts a message, and the worker knows, or sees an error that leaves it open.
  accept :
      (s : System) (before after : List Attempt) (a : Attempt)
      → s.running ≡ before ++ a ∷ after
      → Step c s (record s {
        running = before ++ after;
        handed_over = a ∷ s.handed_over;
        accepted = a.email.id ∷ s.accepted;
      })
  accept_unnoticed :
      (s : System) (now : ℕ) (before after : List Attempt) (a : Attempt) (e : Failure)
      → s.running ≡ before ++ a ∷ after
      → IsUncertain e
      → Step c s (record s {
        db = record_delivery_failure now a.email a.owner e s.db;
        running = before ++ after;
        accepted = a.email.id ∷ s.accepted;
      })
  -- The relay does not have the message.
  reject :
      (s : System) (now : ℕ) (before after : List Attempt) (a : Attempt) (e : Failure)
      → s.running ≡ before ++ a ∷ after
      → Step c s (record s {
        db = record_delivery_failure now a.email a.owner e s.db;
        running = before ++ after;
      })
  -- The worker dies, before or after the relay has the message.
  die :
      (s : System) (before after : List Attempt) (a : Attempt)
      → s.running ≡ before ++ a ∷ after
      → Step c s (record s { running = before ++ after })
  die_accepted :
      (s : System) (before after : List Attempt) (a : Attempt)
      → s.running ≡ before ++ a ∷ after
      → Step c s (record s { running = before ++ after; accepted = a.email.id ∷ s.accepted })
  -- What a worker stores after an acceptance.
  settle :
      (s : System) (now : ℕ) (a : Attempt)
      → Memᴰ a s.handed_over
      → Step c s (record s { db = (mark_sent now a.email a.owner s.db).0 })
  settle_ambiguous :
      (s : System) (a : Attempt)
      → Memᴰ a s.handed_over
      → Step c s (record s { db = mark_ambiguous_after_smtp_acceptance a.email a.owner s.db })
  recover :
      (s : System) (now : ℕ) → Step c s (record s { db = (recover_durable_outbox c now s.db).0 })
  retry_by_operator :
      (s : System) (visible : OutboundEmail → Bool) (id : ℕ) (db : MailDb)
      → retry_outbound_email c visible id s.db ≡ some db
      → Step c s (record s { db = db; retried = id ∷ s.retried })

pub data Reach (c : Config) : System → Type 0 where
  begin :
      (db : MailDb)
      → db.emails ≡ []
      → Reach c (record { db = db; running = []; handed_over = []; accepted = []; retried = [] })
  step : {s t : System} → Reach c s → Step c s t → Reach c t
