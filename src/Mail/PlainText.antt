-- ===== src/Mail/PlainText.antt =====
-- `createWorkflowTicketEmail`, `createReportEmail` and `textToSafeHtml` of
-- apps/api/src/modules/mail/mail.service.ts.
use kayaka_style_hd.Prelude.{
  Outcome, ok, err, ◌>>=◌, ◌>>◌, require, found, ℕ, Bool, true, false, not, ◌&&◌, Option, none,
  some, List, [], ◌∷◌, ◌++◌, map, ltb, leb, ◌==◌, if◌then◌else◌, is_none, length, find?, keep,
  drop_where,
}
use kayaka_style_hd.Common.Email.{Text, same_text, is_empty, normalize_email}
use kayaka_style_hd.Mail.Store.{workflow, report}
use kayaka_style_hd.Mail.Commands.{
  same_kind, is_number, has_key, is_valid_key, has_exactly_one_recipient, to_recipient,
  insert_command, replay, found_or, Command, CommandError, empty_recipient, empty_body,
  body_too_long, invalid_key, invalid_run, requester_changed, Strings,
}

-- `text.replace(/c/g, s)`, for a single code unit `c`.
unfoldable pub replace_all : ℕ → Text → Text → Text
replace_all c s [] = []
replace_all c s (d ∷ t) = if d == c then s ++ replace_all c s t else d ∷ replace_all c s t

-- `&amp;`, `&lt;` and `&gt;`
abbrev pub amp : Text
amp = 38 ∷ 97 ∷ 109 ∷ 112 ∷ 59 ∷ []

abbrev pub lt : Text
lt = 38 ∷ 108 ∷ 116 ∷ 59 ∷ []

abbrev pub gt : Text
gt = 38 ∷ 103 ∷ 116 ∷ 59 ∷ []

unfoldable pub escape_html : Text → Text
unfolding replace_all
escape_html t = replace_all 62 gt (replace_all 60 lt (replace_all 38 amp t))

-- The tags of the `pre` element are arguments.
unfoldable pub text_to_safe_html : Text → Text → Text → Text
unfolding escape_html
text_to_safe_html open_tag close_tag t = open_tag ++ escape_html t ++ close_tag

-- A ticket's id and requester.
pub record Requester : Type 0 where
  pub ticket_id : ℕ
  pub requester_email : Option Text

pub record WorkflowTicketEmailInput : Type 0 where
  pub ticket_id : ℕ
  pub to_address : Text
  pub subject : Text
  pub text : Text
  pub idempotency_key : Text

pub record Html : Type 0 where
  pub open_tag : Text
  pub close_tag : Text

-- `assertWorkflowTicketEmailIdentity` passes.
unfoldable pub is_workflow_ticket_email :
    Strings → Html → WorkflowTicketEmailInput → Text → Text → Command → Bool
unfolding normalize_email text_to_safe_html
is_workflow_ticket_email s h input address text c =
    is_number c.ticket_id input.ticket_id
    && is_none c.post_id
    && same_kind c.kind workflow
    && same_text c.subject input.subject
    && same_text c.html_body (text_to_safe_html h.open_tag h.close_tag text)
    && same_text c.text_body text
    && has_exactly_one_recipient s.lower address c.recipients

unfoldable pub workflow_command : Html → ℕ → WorkflowTicketEmailInput → Text → Text → Command
unfolding text_to_safe_html
workflow_command h id input address text = record {
  id = id;
  ticket_id = some input.ticket_id;
  post_id = none;
  report_run_id = none;
  kind = workflow;
  idempotency_key = some input.idempotency_key;
  sla_escalation_event_id = none;
  subject = input.subject;
  html_body = text_to_safe_html h.open_tag h.close_tag text;
  text_body = text;
  recipients = to_recipient address ∷ [];
}

abbrev pub is_requester : (Text → Text) → Text → Option Requester → Bool
unfolding normalize_email
is_requester lower address none = false
is_requester lower address (some r) = elim r.requester_email [
  | none ↦ false
  | some e ↦ not (is_empty e) && same_text (normalize_email lower e) address
]

abbrev pub inserted_or :
    (Command → Bool)
    → Command
    → List Command
    → Option Command
    → Outcome CommandError (List Command)
    → Outcome CommandError (List Command × ℕ)
inserted_or same c cs winner (ok inserted) = ok (inserted, c.id)
inserted_or same c cs winner (err why) = found winner why >>= replay same cs

-- The insert, and after a violation of the unique key the row that won it.
unfoldable pub create_or_winner :
    (Command → Bool) → Text → Command → List Command → Outcome CommandError (List Command × ℕ)
unfolding find? insert_command
create_or_winner same key c cs =
    inserted_or same c cs (find? (has_key key) cs) (insert_command c cs)

-- `cs` is the table at the transaction's read, and `later` when its insert is decided.
unfoldable pub create_workflow_ticket_email :
    Strings
    → Html
    → List Requester
    → ℕ
    → WorkflowTicketEmailInput
    → List Command
    → List Command
    → Outcome CommandError (List Command × ℕ)
unfolding normalize_email is_workflow_ticket_email workflow_command create_or_winner find?
create_workflow_ticket_email s h tickets id input cs later =
    let address = normalize_email s.lower input.to_address in
    let text = s.trim input.text in
    require (not (is_empty address)) empty_recipient
    >> (require (not (is_empty text)) empty_body
        >> (require (leb (length text) 50_000) body_too_long
            >> (require (is_valid_key input.idempotency_key) invalid_key
                >> (require
                      (is_requester s.lower address
                        (find? (λ r. r.ticket_id == input.ticket_id) tickets))
                      requester_changed
                    >> found_or (is_workflow_ticket_email s h input address text) cs
                        (find? (has_key input.idempotency_key) cs)
                        (create_or_winner (is_workflow_ticket_email s h input address text)
                          input.idempotency_key (workflow_command h id input address text)
                          later)))))

pub record ReportEmailInput : Type 0 where
  pub report_run_id : ℕ
  pub to_addresses : List Text
  pub subject : Text
  pub text : Text
  pub idempotency_key : Text

-- `[...new Set(addresses)]`
unfoldable pub distinct_texts : List Text → List Text
unfolding drop_where
distinct_texts [] = []
distinct_texts (t ∷ ts) = t ∷ drop_where (same_text t) (distinct_texts ts)

unfoldable pub report_recipients : (Text → Text) → List Text → List Text
unfolding distinct_texts normalize_email keep
report_recipients lower ts =
    distinct_texts (keep (λ t. not (is_empty t)) (map (normalize_email lower) ts))

abbrev pub is_no_text : List Text → Bool
is_no_text [] = true
is_no_text (t ∷ ts) = false

unfoldable pub create_report_email :
    Strings → Html → ℕ → ReportEmailInput → List Command → Outcome CommandError (List Command × ℕ)
unfolding report_recipients text_to_safe_html insert_command
create_report_email s h id input cs =
    let recipients = report_recipients s.lower input.to_addresses in
    let text = s.trim input.text in
    require (ltb 0 input.report_run_id) invalid_run
    >> (require (not (is_no_text recipients)) empty_recipient
        >> (require (not (is_empty text)) empty_body
            >> (require (leb (length text) 5_000_000) body_too_long
                >> (require (is_valid_key input.idempotency_key) invalid_key
                    >> (insert_command
                          record {
                            id = id;
                            ticket_id = none;
                            post_id = none;
                            report_run_id = some input.report_run_id;
                            kind = report;
                            idempotency_key = some input.idempotency_key;
                            sla_escalation_event_id = none;
                            subject = input.subject;
                            html_body = text_to_safe_html h.open_tag h.close_tag text;
                            text_body = text;
                            recipients = map to_recipient recipients;
                          }
                          cs
                        >>= λ inserted. ok (inserted, id))))))
