-- ===== src/Mail/Store.antt =====
-- The rows of the durable outbox that apps/api/src/modules/mail/mail.service.ts reads and writes, and
-- what an SMTP attempt gives back. Bodies, subjects and headers are left out but where a test reads them.
use kayaka_style_hd.Prelude.{ℕ, Bool, true, false, Option, List, ◌==◌, find?}
use Prim.Native.String.{String}
use kayaka_style_hd.Tickets.Store.{Ticket}
use kayaka_style_hd.Common.Email.{Text}

pub data OutboundEmailState : Type 0 where
  queued processing retry sent failed ambiguous : OutboundEmailState

pub data OutboundEmailKind : Type 0 where
  staff_reply autoresponder auto_close internal_notification workflow report : OutboundEmailKind

pub data Role : Type 0 where
  to cc bcc : Role

pub record Recipient : Type 0 where
  pub email : Text
  pub role : Role

-- What an error of the SMTP library shows: the response code, the upper-cased error code, and
-- whether its message tells of a timeout or a lost connection.
pub record Failure : Type 0 where
  pub response_code : Option ℕ
  pub code : String
  pub tells_of_disconnect : Bool

pub data Diagnostic : Type 0 where
  lease_expired not_persisted canary_rejected : Diagnostic
  delivery_failed : Failure → Diagnostic

pub record OutboundEmail : Type 0 where
  pub id : ℕ
  pub kind : OutboundEmailKind
  pub ticket_id : Option ℕ
  pub post_id : Option ℕ
  pub recipients : List Recipient
  pub state : OutboundEmailState
  pub attempts : ℕ
  pub next_attempt_at : Option ℕ
  pub lease_owner : Option ℕ
  pub lease_expires_at : Option ℕ
  pub lease_version : ℕ
  pub last_error : Option Diagnostic
  pub accepted_at : Option ℕ
  pub sent_at : Option ℕ
  pub created_at : ℕ

pub record Post : Type 0 where
  pub id : ℕ
  pub is_emailed : Bool

pub record MailDb : Type 0 where
  pub emails : List OutboundEmail
  pub posts : List Post
  pub tickets : List Ticket

-- The one command and recipient that an attended test run of the relay may use.
pub record Canary : Type 0 where
  pub email_id : ℕ
  pub recipient : Text

pub record Config : Type 0 where
  pub outbound_enabled : Bool
  pub canary : Option Canary
  pub lower : Text → Text

abbrev pub same_state : OutboundEmailState → OutboundEmailState → Bool
same_state queued queued = true
same_state processing processing = true
same_state retry retry = true
same_state sent sent = true
same_state failed failed = true
same_state ambiguous ambiguous = true
same_state _ _ = false

abbrev pub is_to : Role → Bool
is_to to = true
is_to cc = false
is_to bcc = false

abbrev pub email_by_id : ℕ → MailDb → Option OutboundEmail
email_by_id id db = find? (λ r. r.id == id) db.emails
