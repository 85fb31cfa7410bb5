-- ===== src/Mail/Replay.antt =====
-- What the creation of durable commands in apps/api/src/modules/mail/mail.service.ts returns, and the
-- HTML of a plain text.
use kayaka_style_hd.Prelude.{
  Outcome, ok, ◌>>◌, require, require-eq-ok, ok-injective, ℕ, ◌≡◌, refl, sym, ap, ◌∙◌, subst, ◌⊎◌,
  inl, inr, Bool, true, false, not, Option, none, some, List, [], ◌∷◌, ◌++◌, arith, ltb, leb, ◌==◌,
  Bool-cases, is_none, length, find?,
}
use kayaka_style_hd.Common.Email.{Text, is_empty, normalize_email}
use kayaka_style_hd.Common.Texts.{same_text_refl, same_text-eq}
use kayaka_style_hd.Mail.Store.{
  OutboundEmailKind, staff_reply, autoresponder, auto_close, internal_notification, workflow,
  report, Role, to, cc as carbon, bcc as blind, is_to, Recipient,
}
use kayaka_style_hd.Mail.Commands.{
  same_kind, is_number, has_exactly_one_recipient, to_recipient, has_key, is_valid_key,
  insert_command, is_internal_notification, notification_command, replay, upserted, upsert_command,
  found_or, create_internal_notification_email, Command, RenderedTemplate, CommandError,
  invalid_ticket, empty_recipient, empty_template_key, empty_body, body_too_long, invalid_key,
  key_conflict, requester_changed, duplicate_key, Strings, InternalNotificationEmailInput,
}
use kayaka_style_hd.Mail.PlainText.{
  replace_all, escape_html, text_to_safe_html, is_workflow_ticket_email, workflow_command,
  is_requester, inserted_or, create_or_winner, create_workflow_ticket_email, Requester,
  WorkflowTicketEmailInput, Html,
}

-- The text that a piece of HTML of these entities and of other characters shows.
pub data Shows : Text → Text → Type 0 where
  nothing : Shows [] []
  ampersand : {h t : Text} → Shows h t → Shows (38 ∷ 97 ∷ 109 ∷ 112 ∷ 59 ∷ h) (38 ∷ t)
  less : {h t : Text} → Shows h t → Shows (38 ∷ 108 ∷ 116 ∷ 59 ∷ h) (60 ∷ t)
  greater : {h t : Text} → Shows h t → Shows (38 ∷ 103 ∷ 116 ∷ 59 ∷ h) (62 ∷ t)
  plain :
      {c : ℕ} {h t : Text}
      → (c == 38) ≡ false
      → (c == 60) ≡ false
      → (c == 62) ≡ false
      → Shows h t
      → Shows (c ∷ h) (c ∷ t)

-- An escaped text shows exactly the text: no character of it is read as a tag or an entity.
pub escape_html-Shows : (t : Text) → Shows (escape_html t) t
unfolding escape_html replace_all
escape_html-Shows [] = nothing
escape_html-Shows (c ∷ t) = elim (Bool-cases (c == 38)) [
  | inl e ↦ let same : c ≡ 38 = ground arith in rw same (ampersand (escape_html-Shows t))
  | inr n ↦ elim (Bool-cases (c == 60)) [
    | inl e ↦ let same : c ≡ 60 = ground arith in rw same (less (escape_html-Shows t))
    | inr m ↦ elim (Bool-cases (c == 62)) [
      | inl e ↦ let same : c ≡ 62 = ground arith in rw same (greater (escape_html-Shows t))
      | inr l ↦ rw (n, m, l) (plain n m l (escape_html-Shows t))
    ]
  ]
]

-- What a creation returns: the table's one row under the key, which is the new command or has passed
-- the check that it is the same one.
abbrev pub IsReturned : (Command → Bool) → Text → Command → List Command × ℕ → Type 0
IsReturned same key new out =
    (c : Command) × (find? (has_key key) out.0 ≡ some c)
    × (c.id ≡ out.1)
    × ((c ≡ new) ⊎ (same c ≡ true))

find?-sole :
    (key : Text) (c : Command) (cs : List Command)
    → find? (has_key key) cs ≡ none
    → has_key key c ≡ true
    → find? (has_key key) (cs ++ c ∷ []) ≡ some c
unfolding find?
find?-sole key c [] n h = rw h refl
find?-sole key c (d ∷ cs) n h = elim (Bool-cases (has_key key d)) [
  | inl t ↦ absurd (let k = rw t at n in cc)
  | inr t ↦ rw t (find?-sole key c cs (rw t at n) h)
]

replay-IsReturned :
    (same : Command → Bool) (key : Text) (new c : Command) (cs : List Command)
    (out : List Command × ℕ)
    → find? (has_key key) cs ≡ some c
    → replay same cs c ≡ ok out
    → IsReturned same key new out
replay-IsReturned same key new c cs out f h =
    let r = require-eq-ok (same c) key_conflict (ok (cs, c.id)) h in
    let e : (cs, c.id) ≡ out = ok-injective r.1 in
    (c, ap (λ o. find? (has_key key) o.0) (sym e) ∙ f, ap (λ o. o.1) e, inr r.0)

upserted-IsReturned :
    (same : Command → Bool) (key : Text) (c : Command) (cs : List Command) (o : Option Command)
    (out : List Command × ℕ)
    → find? (has_key key) cs ≡ o
    → has_key key c ≡ true
    → upserted same c cs o ≡ ok out
    → IsReturned same key c out
upserted-IsReturned same key c cs none out n k h =
    replay-IsReturned same key c c (cs ++ c ∷ []) out (find?-sole key c cs n k) h
upserted-IsReturned same key c cs (some d) out f k h = replay-IsReturned same key c d cs out f h

inserted_or-IsReturned :
    (same : Command → Bool) (key : Text) (c : Command) (cs : List Command) (o : Option Command)
    (out : List Command × ℕ)
    → find? (has_key key) cs ≡ o
    → has_key key c ≡ true
    → inserted_or same c cs o (require (is_none o) duplicate_key >> ok (cs ++ c ∷ [])) ≡ ok out
    → IsReturned same key c out
inserted_or-IsReturned same key c cs none out n k h =
    let e : (cs ++ c ∷ [], c.id) ≡ out = ok-injective h in
    (
      c,
      ap (λ o. find? (has_key key) o.0) (sym e) ∙ find?-sole key c cs n k,
      ap (λ o. o.1) e,
      inl refl,
    )
inserted_or-IsReturned same key c cs (some d) out f k h = replay-IsReturned same key c d cs out f h

found_or-IsReturned :
    (same : Command → Bool) (key : Text) (new : Command) (cs : List Command) (o : Option Command)
    (out : List Command × ℕ) (create : Outcome CommandError (List Command × ℕ))
    → find? (has_key key) cs ≡ o
    → (create ≡ ok out → IsReturned same key new out)
    → found_or same cs o create ≡ ok out
    → IsReturned same key new out
found_or-IsReturned same key new cs none out create n k h = k h
found_or-IsReturned same key new cs (some d) out create f k h =
    replay-IsReturned same key new d cs out f h

create_workflow_ticket_email-IsReturned :
    (s : Strings) (h : Html) (tickets : List Requester) (id : ℕ) (input : WorkflowTicketEmailInput)
    (cs later : List Command) (out : List Command × ℕ)
    → create_workflow_ticket_email s h tickets id input cs later ≡ ok out
    → IsReturned
        (is_workflow_ticket_email s h input
          (normalize_email s.lower input.to_address)
          (s.trim input.text))
        input.idempotency_key
        (workflow_command h id input (normalize_email s.lower input.to_address) (s.trim input.text))
        out
unfolding create_workflow_ticket_email create_or_winner insert_command workflow_command
create_workflow_ticket_email-IsReturned s h tickets id input cs later out e =
    let address = normalize_email s.lower input.to_address in
    let e1 = (require-eq-ok (not (is_empty address)) empty_recipient _ e).1 in
    let e2 = (require-eq-ok (not (is_empty (s.trim input.text))) empty_body _ e1).1 in
    let e3 = (require-eq-ok (leb (length (s.trim input.text)) 50_000) body_too_long _ e2).1 in
    let e4 = (require-eq-ok (is_valid_key input.idempotency_key) invalid_key _ e3).1 in
    let e5 =
      (require-eq-ok
        (is_requester s.lower address (find? (λ r. r.ticket_id == input.ticket_id) tickets))
        requester_changed _ e4).1 in
    let new = workflow_command h id input address (s.trim input.text) in
    let same = is_workflow_ticket_email s h input address (s.trim input.text) in
    found_or-IsReturned same input.idempotency_key new cs (find? (has_key input.idempotency_key) cs)
      out (create_or_winner same input.idempotency_key new later) refl
      (inserted_or-IsReturned same input.idempotency_key new later
        (find? (has_key input.idempotency_key) later) out refl
        (same_text_refl input.idempotency_key))
      e5

-- Whatever another transaction inserts between the read and the upsert, a staff notification that is
-- created is the table's row under its key, and that row is the new command or one that agrees with the
-- input in ticket, kind, escalation event and recipient.
pub create_internal_notification_email_lem :
    (s : Strings) (t : RenderedTemplate) (id : ℕ) (input : InternalNotificationEmailInput)
    (cs later : List Command) (out : List Command × ℕ)
    → create_internal_notification_email s (some t) id input cs later ≡ ok out
    → IsReturned
        (is_internal_notification s input (normalize_email s.lower input.to_address))
        input.idempotency_key
        (notification_command id input (normalize_email s.lower input.to_address) t)
        out
unfolding create_internal_notification_email upsert_command
create_internal_notification_email_lem s t id input cs later out e =
    let address = normalize_email s.lower input.to_address in
    let e1 = (require-eq-ok (ltb 0 input.ticket_id) invalid_ticket _ e).1 in
    let e2 = (require-eq-ok (not (is_empty address)) empty_recipient _ e1).1 in
    let e3 =
      (require-eq-ok (not (is_empty (s.trim input.template_key))) empty_template_key _ e2).1 in
    let e4 = (require-eq-ok (is_valid_key input.idempotency_key) invalid_key _ e3).1 in
    let new = notification_command id input address t in
    let same = is_internal_notification s input address in
    found_or-IsReturned same input.idempotency_key new cs (find? (has_key input.idempotency_key) cs)
      out (upsert_command same input.idempotency_key new later) refl
      (upserted-IsReturned same input.idempotency_key new later
        (find? (has_key input.idempotency_key) later) out refl
        (same_text_refl input.idempotency_key))
      e4

-- A stored command is the email that a workflow asks for.
pub record IsAsked (s : Strings) (h : Html) (input : WorkflowTicketEmailInput) (c : Command)
    : Type 0 where
  pub ticket : c.ticket_id ≡ some input.ticket_id
  pub no_post : c.post_id ≡ none
  pub kind : c.kind ≡ workflow
  pub subject : c.subject ≡ input.subject
  pub text_body : c.text_body ≡ s.trim input.text
  pub html_body : c.html_body ≡ h.open_tag ++ escape_html (s.trim input.text) ++ h.close_tag
  pub sole_recipient :
      (r : Recipient) × (c.recipients ≡ r ∷ [])
      × (r.role ≡ to)
      × (normalize_email s.lower r.email ≡ normalize_email s.lower input.to_address)

is_number-eq : (o : Option ℕ) (n : ℕ) → is_number o n ≡ true → o ≡ some n
is_number-eq none n h = absurd (cc)
is_number-eq (some m) n h = let e : m ≡ n = ground arith in ap some e

is_none-eq : (o : Option ℕ) → is_none o ≡ true → o ≡ none
is_none-eq none h = refl
is_none-eq (some n) h = absurd (cc)

same_kind-workflow : (k : OutboundEmailKind) → same_kind k workflow ≡ true → k ≡ workflow
same_kind-workflow workflow h = refl
same_kind-workflow staff_reply h = absurd (cc)
same_kind-workflow autoresponder h = absurd (cc)
same_kind-workflow auto_close h = absurd (cc)
same_kind-workflow internal_notification h = absurd (cc)
same_kind-workflow report h = absurd (cc)

is_to-eq : (r : Role) → is_to r ≡ true → r ≡ to
is_to-eq to h = refl
is_to-eq carbon h = absurd (cc)
is_to-eq blind h = absurd (cc)

has_exactly_one_recipient-sole :
    (lower : Text → Text) (address : Text) (rs : List Recipient)
    → has_exactly_one_recipient lower address rs ≡ true
    → (r : Recipient) × (rs ≡ r ∷ []) × (r.role ≡ to) × (normalize_email lower r.email ≡ address)
unfolding has_exactly_one_recipient
has_exactly_one_recipient-sole lower address [] h = absurd (let k : false ≡ true = h in cc)
has_exactly_one_recipient-sole lower address (r ∷ q ∷ rs) h =
    absurd (let k : false ≡ true = h in cc)
has_exactly_one_recipient-sole lower address (r ∷ []) h = (
  r,
  refl,
  is_to-eq r.role (ground arith),
  same_text-eq (normalize_email lower r.email) address (ground arith),
)

is_workflow_ticket_email-IsAsked :
    (s : Strings) (h : Html) (input : WorkflowTicketEmailInput) (c : Command)
    → is_workflow_ticket_email s h input
        (normalize_email s.lower input.to_address)
        (s.trim input.text)
        c
      ≡ true
    → IsAsked s h input c
unfolding is_workflow_ticket_email text_to_safe_html
is_workflow_ticket_email-IsAsked s h input c e = record {
  ticket = is_number-eq c.ticket_id input.ticket_id (ground arith);
  no_post = is_none-eq c.post_id (ground arith);
  kind = same_kind-workflow c.kind (ground arith);
  subject = same_text-eq c.subject input.subject (ground arith);
  text_body = same_text-eq c.text_body (s.trim input.text) (ground arith);
  html_body =
      same_text-eq c.html_body (h.open_tag ++ escape_html (s.trim input.text) ++ h.close_tag)
        (ground arith);
  sole_recipient =
      has_exactly_one_recipient-sole s.lower (normalize_email s.lower input.to_address) c.recipients
        (ground arith);
}

workflow_command-IsAsked :
    (s : Strings) (h : Html) (id : ℕ) (input : WorkflowTicketEmailInput)
    → normalize_email s.lower (normalize_email s.lower input.to_address)
      ≡ normalize_email s.lower input.to_address
    → IsAsked s h input
        (workflow_command h id input (normalize_email s.lower input.to_address) (s.trim input.text))
unfolding workflow_command text_to_safe_html
workflow_command-IsAsked s h id input same = record {
  ticket = refl;
  no_post = refl;
  kind = refl;
  subject = refl;
  text_body = refl;
  html_body = refl;
  sole_recipient = (to_recipient (normalize_email s.lower input.to_address), refl, refl, same);
}

-- Whatever another transaction inserts between the read and the insert, a workflow's email that is
-- created is the table's row under its key, and that row, the new one or one that was there, is a
-- workflow email to the input's ticket, with no post, the input's subject and trimmed text, the HTML of
-- that text, and the input's address as the one recipient, where normalizing an address again does not
-- change it.
pub create_workflow_ticket_email_lem :
    (s : Strings) (h : Html) (tickets : List Requester) (id : ℕ) (input : WorkflowTicketEmailInput)
    (cs later : List Command) (out : List Command × ℕ)
    → normalize_email s.lower (normalize_email s.lower input.to_address)
      ≡ normalize_email s.lower input.to_address
    → create_workflow_ticket_email s h tickets id input cs later ≡ ok out
    → (c : Command) × (find? (has_key input.idempotency_key) out.0 ≡ some c)
      × (c.id ≡ out.1)
      × IsAsked s h input c
create_workflow_ticket_email_lem s h tickets id input cs later out same e =
    let (c, f, i, how) =
      create_workflow_ticket_email-IsReturned s h tickets id input cs later out e in
    (
      c,
      f,
      i,
      elim how [
        | inl new ↦ subst (IsAsked s h input) (sym new) (workflow_command-IsAsked s h id input same)
        | inr old ↦ is_workflow_ticket_email-IsAsked s h input c old
      ],
    )
