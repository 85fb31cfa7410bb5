-- ===== src/Mail/Commands.antt =====
-- The creation of durable commands in apps/api/src/modules/mail/mail.service.ts:
-- `createAutomatedTicketEmail`, `createInternalNotificationEmail`, `createWorkflowTicketEmail` and
-- `createReportEmail`. A rendered template, the stable message id and the new row's id are arguments.
use kayaka_style_hd.Prelude.{
  Outcome, ok, ◌>>=◌, ◌>>◌, require, found, ℕ, Bool, true, false, not, ◌&&◌, Option, none, some,
  List, [], ◌∷◌, ◌++◌, ltb, leb, ◌==◌, if◌then◌else◌, is_none, length, find?,
}
use kayaka_style_hd.Common.Email.{Text, same_text, is_empty, normalize_email}
use kayaka_style_hd.Mail.Store.{
  is_to, OutboundEmailKind, staff_reply, autoresponder, auto_close, internal_notification, workflow,
  report, to, Recipient,
}

-- The columns of an OutboundEmail that never change after its creation.
pub record Command : Type 0 where
  pub id : ℕ
  pub ticket_id : Option ℕ
  pub post_id : Option ℕ
  pub report_run_id : Option ℕ
  pub kind : OutboundEmailKind
  pub idempotency_key : Option Text
  pub sla_escalation_event_id : Option Text
  pub subject : Text
  pub html_body : Text
  pub text_body : Text
  pub recipients : List Recipient

pub record RenderedTemplate : Type 0 where
  pub subject : Text
  pub html : Text
  pub text : Text

pub data CommandError : Type 0 where
  invalid_ticket empty_recipient empty_template_key empty_body body_too_long invalid_key
        invalid_run :
      CommandError
  key_conflict requester_changed render_failed duplicate_key : CommandError

-- The functions of the platform that the commands use: `toLowerCase` and `trim` of strings.
pub record Strings : Type 0 where
  pub lower : Text → Text
  pub trim : Text → Text

abbrev pub same_kind : OutboundEmailKind → OutboundEmailKind → Bool
same_kind staff_reply staff_reply = true
same_kind autoresponder autoresponder = true
same_kind auto_close auto_close = true
same_kind internal_notification internal_notification = true
same_kind workflow workflow = true
same_kind report report = true
same_kind _ _ = false

abbrev pub is_number : Option ℕ → ℕ → Bool
is_number none n = false
is_number (some m) n = m == n

abbrev pub same_option : Option Text → Option Text → Bool
same_option none none = true
same_option (some s) (some t) = same_text s t
same_option _ _ = false

abbrev pub has_key : Text → Command → Bool
has_key key c = same_option c.idempotency_key (some key)

-- `!idempotencyKey || idempotencyKey.length > 255` does not hold.
abbrev pub is_valid_key : Text → Bool
is_valid_key key = not (is_empty key) && leb (length key) 255

unfoldable pub has_exactly_one_recipient : (Text → Text) → Text → List Recipient → Bool
unfolding normalize_email
has_exactly_one_recipient lower address (r ∷ []) =
    is_to r.role && same_text (normalize_email lower r.email) address
has_exactly_one_recipient lower address _ = false

abbrev pub to_recipient : Text → Recipient
to_recipient email = record { email = email; role = to }

abbrev pub is_fresh : Option Text → List Command → Bool
unfolding find?
is_fresh none cs = true
is_fresh (some key) cs = is_none (find? (has_key key) cs)

-- An insert under the unique key of the table.
unfoldable pub insert_command : Command → List Command → Outcome CommandError (List Command)
unfolding find?
insert_command c cs = require (is_fresh c.idempotency_key cs) duplicate_key >> ok (cs ++ c ∷ [])

pub record AutomatedTicketEmailInput : Type 0 where
  pub ticket_id : ℕ
  pub kind : OutboundEmailKind
  pub to_address : Text

unfoldable pub create_automated_ticket_email :
    Option RenderedTemplate
    → ℕ
    → AutomatedTicketEmailInput
    → List Command
    → Outcome CommandError (List Command × ℕ)
create_automated_ticket_email rendered id input cs = found rendered render_failed >>= λ t. ok (
  cs
      ++ record {
        id = id;
        ticket_id = some input.ticket_id;
        post_id = none;
        report_run_id = none;
        kind = input.kind;
        idempotency_key = none;
        sla_escalation_event_id = none;
        subject = t.subject;
        html_body = t.html;
        text_body = t.text;
        recipients = to_recipient input.to_address ∷ [];
      }
        ∷ [],
  id,
)

pub record InternalNotificationEmailInput : Type 0 where
  pub ticket_id : ℕ
  pub template_key : Text
  pub to_address : Text
  pub idempotency_key : Text
  pub sla_escalation_event_id : Option Text

-- `assertInternalNotificationIdentity` passes.
unfoldable pub is_internal_notification :
    Strings → InternalNotificationEmailInput → Text → Command → Bool
unfolding normalize_email
is_internal_notification s input address c =
    is_number c.ticket_id input.ticket_id
    && same_kind c.kind internal_notification
    && same_option c.sla_escalation_event_id input.sla_escalation_event_id
    && has_exactly_one_recipient s.lower address c.recipients

-- The event is stored unless it is empty.
abbrev pub stored_event : Option Text → Option Text
stored_event none = none
stored_event (some t) = if is_empty t then none else some t

abbrev pub notification_command :
    ℕ → InternalNotificationEmailInput → Text → RenderedTemplate → Command
notification_command id input address t = record {
  id = id;
  ticket_id = some input.ticket_id;
  post_id = none;
  report_run_id = none;
  kind = internal_notification;
  idempotency_key = some input.idempotency_key;
  sla_escalation_event_id = stored_event input.sla_escalation_event_id;
  subject = t.subject;
  html_body = t.html;
  text_body = t.text;
  recipients = to_recipient address ∷ [];
}

-- The row that holds the key, if it is this command's.
abbrev pub replay :
    (Command → Bool) → List Command → Command → Outcome CommandError (List Command × ℕ)
replay same cs c = require (same c) key_conflict >> ok (cs, c.id)

abbrev pub upserted :
    (Command → Bool)
    → Command
    → List Command
    → Option Command
    → Outcome CommandError (List Command × ℕ)
upserted same c cs none = replay same (cs ++ c ∷ []) c
upserted same c cs (some d) = replay same cs d

-- The upsert: the row that holds the key by now, or a new one; then the identity check again.
unfoldable pub upsert_command :
    (Command → Bool) → Text → Command → List Command → Outcome CommandError (List Command × ℕ)
unfolding find?
upsert_command same key c cs = upserted same c cs (find? (has_key key) cs)

-- The row that the first read finds, or else a creation.
abbrev pub found_or :
    (Command → Bool)
    → List Command
    → Option Command
    → Outcome CommandError (List Command × ℕ)
    → Outcome CommandError (List Command × ℕ)
found_or same cs (some c) create = replay same cs c
found_or same cs none create = create

-- `cs` is the table at the first read, and `later` at the upsert.
unfoldable pub create_internal_notification_email :
    Strings
    → Option RenderedTemplate
    → ℕ
    → InternalNotificationEmailInput
    → List Command
    → List Command
    → Outcome CommandError (List Command × ℕ)
unfolding normalize_email is_internal_notification upsert_command find?
create_internal_notification_email s rendered id input cs later =
    let address = normalize_email s.lower input.to_address in
    require (ltb 0 input.ticket_id) invalid_ticket
    >> (require (not (is_empty address)) empty_recipient
        >> (require (not (is_empty (s.trim input.template_key))) empty_template_key
            >> (require (is_valid_key input.idempotency_key) invalid_key
                >> found_or (is_internal_notification s input address) cs
                    (find? (has_key input.idempotency_key) cs)
                    (found rendered render_failed >>= λ t.
                      upsert_command (is_internal_notification s input address)
                        input.idempotency_key (notification_command id input address t) later))))
