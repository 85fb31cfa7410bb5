-- ===== src/Mail/Outbox.antt =====
-- The durable outbox of apps/api/src/modules/mail/mail.service.ts: claim, settlement, stale leases,
-- recovery scan and operator retry. Each update is one statement or transaction on the tables.
use kayaka_style_hd.Prelude.{
  ℕ, ◌+◌, ◌-◌, ◌*◌, min, Bool, true, false, ◌&&◌, ◌||◌, Option, none, some, List, [], ◌∷◌, ltb, leb,
  ◌==◌, if◌then◌else◌, is_none, find?, count_where, update_where,
}
use Prim.Native.Nat.{◌^◌}
use Prim.Native.String.{String}
use text.Mathlib.Text.{◌==◌ as str_eq}
use kayaka_style_hd.Common.Email.{Text, same_text, normalize_email}
use kayaka_style_hd.Tickets.Store.{Ticket}
use kayaka_style_hd.Mail.Store.{
  OutboundEmailState, queued, processing, retry, sent, failed, ambiguous, OutboundEmailKind,
  staff_reply, Recipient, Failure, Diagnostic, lease_expired, not_persisted, delivery_failed,
  OutboundEmail, MailDb, Config, same_state, is_to, email_by_id,
}

-- `OUTBOX_LEASE_MS`
abbrev pub outbox_lease_ms : ℕ
outbox_lease_ms = 300_000

-- `OUTBOX_RECOVERY_BATCH`
abbrev pub outbox_recovery_batch : ℕ
outbox_recovery_batch = 100

-- `OUTBOX_MAX_ATTEMPTS`
abbrev pub outbox_max_attempts : ℕ
outbox_max_attempts = 5

unfoldable pub is_allowed_outbound_canary_id : Config → ℕ → Bool
is_allowed_outbound_canary_id c id = elim c.canary [ none ↦ true | some k ↦ k.email_id == id ]

abbrev pub sole_to : Config → Text → List Recipient → Bool
sole_to c address (r ∷ []) = is_to r.role && same_text (normalize_email c.lower r.email) address
sole_to c address _ = false

unfoldable pub matches_outbound_canary_recipient : Config → List Recipient → Bool
unfolding normalize_email
matches_outbound_canary_recipient c rs = elim c.canary [
  | none ↦ true
  | some k ↦ sole_to c k.recipient rs
]

abbrev pub is_matching_row : Config → Option OutboundEmail → Bool
is_matching_row c none = false
is_matching_row c (some r) = matches_outbound_canary_recipient c r.recipients

unfoldable pub is_approved_outbound_canary_command : Config → ℕ → MailDb → Bool
unfolding is_allowed_outbound_canary_id matches_outbound_canary_recipient find?
is_approved_outbound_canary_command c id db =
    is_allowed_outbound_canary_id c id
    && (is_none c.canary || is_matching_row c (email_by_id id db))

abbrev pub at_or_before : Option ℕ → ℕ → Bool
at_or_before none now = false
at_or_before (some t) now = leb t now

-- What may be claimed: `QUEUED`, or `RETRY` whose time has come.
abbrev pub is_due : ℕ → OutboundEmail → Bool
is_due now r =
    same_state r.state queued || same_state r.state retry && at_or_before r.next_attempt_at now

abbrev pub is_expired : ℕ → Option ℕ → Bool
is_expired now none = true
is_expired now (some t) = ltb t now

abbrev pub is_stale : ℕ → OutboundEmail → Bool
is_stale now r = same_state r.state processing && is_expired now r.lease_expires_at

-- A row whose lease ends with a diagnostic.
abbrev pub released :
    OutboundEmailState → Option ℕ → Option Diagnostic → OutboundEmail → OutboundEmail
released state next why r = record r {
  state = state;
  lease_owner = none;
  lease_expires_at = none;
  next_attempt_at = next;
  last_error = why;
}

abbrev pub is_id_or_any : Option ℕ → OutboundEmail → Bool
is_id_or_any none r = true
is_id_or_any (some id) r = r.id == id

-- An expired lease is an unknown outcome. The result is the update's count.
unfoldable pub mark_stale_processing_ambiguous : ℕ → Option ℕ → MailDb → MailDb × ℕ
unfolding update_where count_where
mark_stale_processing_ambiguous now id db =
    let test = λ (r : OutboundEmail). is_id_or_any id r && is_stale now r in
    (
      record db {
        emails = update_where test (released ambiguous none (some lease_expired)) db.emails;
      },
      count_where test db.emails,
    )

abbrev pub claimed : ℕ → ℕ → OutboundEmail → OutboundEmail
claimed now owner r = record r {
  state = processing;
  attempts = r.attempts + 1;
  lease_owner = some owner;
  lease_expires_at = some (now + outbox_lease_ms);
  lease_version = r.lease_version + 1;
}

abbrev pub is_claimable : ℕ → ℕ → OutboundEmail → Bool
is_claimable now id r = r.id == id && is_due now r

-- The conditional update that claims a row.
unfoldable pub claim : ℕ → ℕ → ℕ → MailDb → MailDb × ℕ
unfolding update_where count_where
claim now owner id db = (
  record db { emails = update_where (is_claimable now id) (claimed now owner) db.emails },
  count_where (is_claimable now id) db.emails,
)

abbrev pub owned_by : ℕ → Option ℕ → Bool
owned_by owner none = false
owned_by owner (some o) = o == owner

-- The fence of every later update: the row is still under the lease of this claim.
abbrev pub is_fenced : ℕ → ℕ → ℕ → OutboundEmail → Bool
is_fenced id owner version r =
    r.id == id
    && same_state r.state processing
    && owned_by owner r.lease_owner
    && r.lease_version == version

unfoldable pub settle_row : ℕ → ℕ → ℕ → (OutboundEmail → OutboundEmail) → MailDb → MailDb
unfolding update_where
settle_row id owner version f db = record db {
  emails = update_where (is_fenced id owner version) f db.emails;
}

unfoldable pub extend_lease : ℕ → ℕ → ℕ → ℕ → MailDb → MailDb
unfolding settle_row
extend_lease now id owner version =
    settle_row id owner version λ r. record r { lease_expires_at = some (now + outbox_lease_ms) }

abbrev pub answer_first : ℕ → Ticket → Ticket
answer_first now t = record t { first_response_at = some now }

abbrev pub project_post : Option ℕ → MailDb → MailDb
project_post none db = db
project_post (some id) db = record db {
  posts = update_where (λ p. p.id == id) (λ p. record p { is_emailed = true }) db.posts;
}

abbrev pub project_ticket : ℕ → OutboundEmailKind → Option ℕ → MailDb → MailDb
project_ticket now staff_reply (some id) db = record db {
  tickets =
      update_where (λ t. t.id == id && is_none t.first_response_at) (answer_first now) db.tickets;
}
project_ticket now _ _ db = db

abbrev pub accepted_row : ℕ → OutboundEmail → OutboundEmail
accepted_row now r = record (released sent none none r) {
  accepted_at = some now;
  sent_at = some now;
}

-- The transaction of `markSent`; the result tells whether the lease still held.
unfoldable pub mark_sent : ℕ → OutboundEmail → ℕ → MailDb → MailDb × Bool
unfolding settle_row count_where update_where
mark_sent now e owner db =
    let settled = settle_row e.id owner e.lease_version (accepted_row now) db in
    if count_where (is_fenced e.id owner e.lease_version) db.emails == 1
    then (project_ticket now e.kind e.ticket_id (project_post e.post_id settled), true)
    else (settled, false)

unfoldable pub mark_ambiguous_after_smtp_acceptance : OutboundEmail → ℕ → MailDb → MailDb
unfolding settle_row
mark_ambiguous_after_smtp_acceptance e owner =
    settle_row e.id owner e.lease_version (released ambiguous none (some not_persisted))

unfoldable pub retry_at : ℕ → ℕ → ℕ
retry_at now attempts = now + min 3_600_000 (60_000 * 2 ^ (attempts - 1))

abbrev pub is_network_code : String → Bool
is_network_code c =
    str_eq c "ECONNRESET"
    || str_eq c "ECONNABORTED"
    || str_eq c "ETIMEDOUT"
    || str_eq c "ESOCKET"
    || str_eq c "EPIPE"
    || str_eq c "ECONNREFUSED"

abbrev pub bounded_retry : ℕ → ℕ → OutboundEmailState × Option ℕ
bounded_retry now attempts =
    if leb outbox_max_attempts attempts
    then (failed, none)
    else (retry, some (retry_at now attempts))

abbrev pub classify_other : ℕ → Failure → ℕ → OutboundEmailState × Option ℕ
classify_other now e attempts =
    if is_network_code e.code || e.tells_of_disconnect
    then (ambiguous, none)
    else bounded_retry now attempts

abbrev pub classify_response : ℕ → Failure → ℕ → Option ℕ → OutboundEmailState × Option ℕ
classify_response now e attempts none = classify_other now e attempts
classify_response now e attempts (some code) =
    if leb 500 code
    then (failed, none)
    else if leb 400 code
    then bounded_retry now attempts
    else classify_other now e attempts

unfoldable pub classify_failure : ℕ → Failure → ℕ → OutboundEmailState × Option ℕ
unfolding retry_at
classify_failure now e attempts = classify_response now e attempts e.response_code

abbrev pub failed_row : OutboundEmailState × Option ℕ → Failure → OutboundEmail → OutboundEmail
failed_row (state, next) e = released state next (some (delivery_failed e))

unfoldable pub record_delivery_failure : ℕ → OutboundEmail → ℕ → Failure → MailDb → MailDb
unfolding settle_row classify_failure
record_delivery_failure now e owner why =
    settle_row e.id owner e.lease_version (failed_row (classify_failure now why e.attempts) why)
