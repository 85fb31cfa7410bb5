-- ===== src/Mail/Delivery.antt =====
-- The delivery of one command, the operator's retry, the recovery scan and the creation of commands in
-- apps/api/src/modules/mail/mail.service.ts.
use kayaka_style_hd.Prelude.{
  ℕ, Bool, true, false, not, ◌&&◌, ◌||◌, Option, none, some, List, [], ◌∷◌, leb, ◌==◌,
  if◌then◌else◌, is_none, take, find?, count_where, update_where, keep,
}
use kayaka_style_hd.Mail.Store.{
  same_state, is_to, email_by_id, queued, processing, retry, sent, failed, ambiguous,
  OutboundEmailKind, staff_reply, Recipient, Failure, canary_rejected, OutboundEmail, MailDb,
  Config,
}
use kayaka_style_hd.Mail.Outbox.{
  outbox_recovery_batch, matches_outbound_canary_recipient, is_approved_outbound_canary_command,
  is_due, released, is_id_or_any, mark_stale_processing_ambiguous, claim, owned_by, settle_row,
  mark_sent, record_delivery_failure,
}

abbrev pub is_staff_reply : OutboundEmailKind → Bool
is_staff_reply staff_reply = true
is_staff_reply _ = false

abbrev pub has_to : List Recipient → Bool
has_to [] = false
has_to (r ∷ rs) = is_to r.role || has_to rs

-- `toSendMailOptions` throws before SMTP at a staff reply with no ticket, and without a To recipient.
-- Attachments are taken to be stored.
unfoldable pub can_be_sent : OutboundEmail → Bool
can_be_sent e = has_to e.recipients && not (is_staff_reply e.kind && is_none e.ticket_id)

-- What a claim hands to the worker: nothing, or the row under its lease.
abbrev pub leased : ℕ → Option OutboundEmail → Option OutboundEmail
leased owner none = none
leased owner (some r) =
    if same_state r.state processing && owned_by owner r.lease_owner && leb 1 r.lease_version
    then some r
    else none

abbrev pub check_leased : Config → ℕ → MailDb → Option OutboundEmail → MailDb × Option OutboundEmail
check_leased c owner db none = (db, none)
check_leased c owner db (some r) =
    if matches_outbound_canary_recipient c r.recipients then (db, some r) else (
      settle_row r.id owner r.lease_version (released failed none (some canary_rejected)) db,
      none,
    )

abbrev pub after_claim : Config → ℕ → ℕ → MailDb → ℕ → MailDb × Option OutboundEmail
after_claim c owner id db n =
    if n == 1 then check_leased c owner db (leased owner (email_by_id id db)) else (db, none)

abbrev pub after_stale : Config → ℕ → ℕ → ℕ → MailDb → ℕ → MailDb × Option OutboundEmail
after_stale c now owner id db n =
    if n == 0
    then after_claim c owner id (claim now owner id db).0 (claim now owner id db).1
    else (db, none)

-- `processOutboundEmail` up to the SMTP attempt.
unfoldable pub start_delivery : Config → ℕ → ℕ → ℕ → MailDb → MailDb × Option OutboundEmail
unfolding is_approved_outbound_canary_command mark_stale_processing_ambiguous claim settle_row
    matches_outbound_canary_recipient find?
start_delivery c now owner id db =
    if c.outbound_enabled && is_approved_outbound_canary_command c id db
    then after_stale c now owner id (mark_stale_processing_ambiguous now (some id) db).0
        (mark_stale_processing_ambiguous now (some id) db).1
    else (db, none)

-- What the SMTP attempt gives: acceptance by the relay, or an error.
pub data SmtpResult : Type 0 where
  accepts : SmtpResult
  fails : Failure → SmtpResult

-- The error of `toSendMailOptions`: no response code and no network code.
abbrev pub local_failure : Failure
local_failure = record { response_code = none; code = ""; tells_of_disconnect = false }

abbrev pub settle_result : ℕ → OutboundEmail → ℕ → SmtpResult → MailDb → MailDb
settle_result now e owner accepts db = (mark_sent now e owner db).0
settle_result now e owner (fails why) db = record_delivery_failure now e owner why db

unfoldable pub finish_delivery : ℕ → OutboundEmail → ℕ → SmtpResult → MailDb → MailDb
unfolding mark_sent record_delivery_failure can_be_sent
finish_delivery now e owner r db =
    if can_be_sent e
    then settle_result now e owner r db
    else record_delivery_failure now e owner local_failure db

abbrev pub deliver_started : ℕ → ℕ → SmtpResult → MailDb × Option OutboundEmail → MailDb
deliver_started now owner r (db, none) = db
deliver_started now owner r (db, some e) = finish_delivery now e owner r db

-- `processOutboundEmail` with no other worker between its parts, where the database answers.
unfoldable pub process_outbound_email : Config → ℕ → ℕ → ℕ → ℕ → SmtpResult → MailDb → MailDb
unfolding start_delivery finish_delivery
process_outbound_email c now later owner id r db =
    deliver_started later owner r (start_delivery c now owner id db)

abbrev pub requeued : OutboundEmail → OutboundEmail
requeued = released queued none none

abbrev pub is_retryable : ℕ → OutboundEmail → Bool
is_retryable id r =
    r.id == id
    && (same_state r.state failed || same_state r.state ambiguous || same_state r.state retry)

abbrev pub may_retry : Config → Option OutboundEmail → Bool
may_retry c none = false
may_retry c (some r) =
    not (same_state r.state sent) && matches_outbound_canary_recipient c r.recipients

-- `retryOutboundEmail` for an operator whose scope is `visible`; `none` where nothing changes.
unfoldable pub retry_outbound_email : Config → (OutboundEmail → Bool) → ℕ → MailDb → Option MailDb
unfolding is_approved_outbound_canary_command matches_outbound_canary_recipient find? count_where
    update_where
retry_outbound_email c visible id db =
    let test = λ (r : OutboundEmail). visible r && is_retryable id r in
    if c.outbound_enabled
      && is_approved_outbound_canary_command c id db
      && may_retry c (find? (λ r. visible r && r.id == id) db.emails)
      && count_where test db.emails == 1
    then some (record db { emails = update_where test requeued db.emails })
    else none

-- The ids in the order of `createdAt`.
unfoldable pub insert_email : OutboundEmail → List OutboundEmail → List OutboundEmail
insert_email e [] = e ∷ []
insert_email e (x ∷ xs) =
    let rest = insert_email e xs in if leb e.created_at x.created_at then e ∷ x ∷ xs else x ∷ rest

unfoldable pub sort_emails : List OutboundEmail → List OutboundEmail
unfolding insert_email
sort_emails [] = []
sort_emails (e ∷ es) = insert_email e (sort_emails es)

abbrev pub email_ids : List OutboundEmail → List ℕ
email_ids [] = []
email_ids (e ∷ es) = e.id ∷ email_ids es

abbrev pub canary_id : Config → Option ℕ
canary_id c = elim c.canary [ none ↦ none | some k ↦ some k.email_id ]

abbrev pub is_canary_approved : Config → MailDb → Bool
is_canary_approved c db = elim c.canary [
  | none ↦ true
  | some k ↦ is_approved_outbound_canary_command c k.email_id db
]

-- `recoverDurableOutbox`: the tables after it, and the ids that it hands to `enqueueOutbound`.
unfoldable pub recover_durable_outbox : Config → ℕ → MailDb → MailDb × List ℕ
unfolding is_approved_outbound_canary_command mark_stale_processing_ambiguous keep sort_emails
recover_durable_outbox c now db =
    let db' = (mark_stale_processing_ambiguous now (canary_id c) db).0 in
    if c.outbound_enabled && is_canary_approved c db
    then (
      db',
      email_ids (
          take outbox_recovery_batch
            (sort_emails (keep (λ r. is_id_or_any (canary_id c) r && is_due now r) db'.emails))),
    )
    else (db, [])
