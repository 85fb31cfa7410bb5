-- ===== src/Mail/Tests.antt =====
-- The theorems on the outbox at one letter.
use kayaka_style_hd.Prelude.{
  ok, ℕ, ◌+◌, ◌≤◌, ◌<◌, ◌≡◌, refl, true, false, none, some, List, [], ◌∷◌, arith, All, find?,
  count_where, keep,
}
use mathlib.Core.List.{Memᴰ}
use kayaka_style_hd.Common.Email.{normalize_email}
use kayaka_style_hd.Mail.Store.{
  same_state, email_by_id, queued, sent, staff_reply, to, Failure, OutboundEmail, MailDb, Config,
}
use kayaka_style_hd.Mail.Outbox.{outbox_max_attempts, claimed, mark_sent, classify_failure}
use kayaka_style_hd.Mail.Delivery.{start_delivery, process_outbound_email, accepts, fails}
use kayaka_style_hd.Mail.Workers.{
  is, Attempt, System, IsNew, create, start, accept, settle, Reach, begin, step,
}
use kayaka_style_hd.Mail.Rows.{UniqueIds}
use kayaka_style_hd.Mail.Once.{accepted_once, rows_true}
use kayaka_style_hd.Mail.Effects.{attempted, IsDelivered, processed}
use kayaka_style_hd.Mail.Ends.{
  classify_failure-Verdict, Verdict, deliveries_end, Rounds, stop, round,
}
use kayaka_style_hd.Mail.Commands.{has_key, Command, Strings}
use kayaka_style_hd.Mail.PlainText.{
  escape_html, workflow_command, create_workflow_ticket_email, Requester, WorkflowTicketEmailInput,
  Html,
}
use kayaka_style_hd.Mail.Replay.{
  escape_html-Shows, IsAsked, create_workflow_ticket_email_lem, Shows,
}

abbrev office : Config
office = record { outbound_enabled = true; canary = none; lower = λ t. t }

abbrev letter : OutboundEmail
letter = record {
  id = 7;
  kind = staff_reply;
  ticket_id = some 4;
  post_id = some 5;
  recipients = record { email = 97 ∷ []; role = to } ∷ [];
  state = queued;
  attempts = 0;
  next_attempt_at = none;
  lease_owner = none;
  lease_expires_at = none;
  lease_version = 0;
  last_error = none;
  accepted_at = none;
  sent_at = none;
  created_at = 1;
}

abbrev no_mail : MailDb
no_mail = record { emails = []; posts = []; tickets = [] }

abbrev begun : System
begun = record { db = no_mail; running = []; handed_over = []; accepted = []; retried = [] }

abbrev created : System
created = record begun { db = record no_mail { emails = letter ∷ [] } }

abbrev held : Attempt
held = record { email = claimed 100 3 letter; owner = 3 }

abbrev started : System
unfolding start_delivery
started = record created { db = (start_delivery office 100 3 7 created.db).0; running = held ∷ [] }

abbrev handed : System
unfolding start_delivery
handed = record started { running = []; handed_over = held ∷ []; accepted = 7 ∷ [] }

abbrev delivered : System
unfolding start_delivery mark_sent
delivered = record handed { db = (mark_sent 200 held.email 3 handed.db).0 }

letter-IsNew : IsNew letter begun
unfolding count_where
letter-IsNew = record {
  unstored = refl;
  not_running = refl;
  not_accepted = refl;
  is_queued = refl;
  no_attempts = refl;
  no_leases = refl;
}

started-Reach : Reach office started
unfolding start_delivery
started-Reach =
    step (step (begin no_mail refl) (create begun letter letter-IsNew))
      (start created 100 3 7 (claimed 100 3 letter) refl)

delivered-Reach : Reach office delivered
unfolding start_delivery mark_sent
delivered-Reach =
    step (step started-Reach (accept started [] [] held refl))
      (settle handed 200 held (Memᴰ.head refl))

accepted_once_example :
    count_where (is 7) delivered.accepted ≤ 1 + count_where (is 7) delivered.retried
accepted_once_example = accepted_once office delivered-Reach 7

rows_true_example :
    All
      (λ r. r.attempts ≤ outbox_max_attempts + count_where (is r.id) delivered.retried)
      delivered.db.emails
    × All
        (λ r. 0 < count_where (is r.id) delivered.accepted)
        (keep (λ r. same_state r.state sent) delivered.db.emails)
rows_true_example = rows_true office delivered-Reach

letter-UniqueIds : UniqueIds (letter ∷ [])
unfolding count_where
letter-UniqueIds id = ground arith

letter-found : email_by_id 7 created.db ≡ some letter
unfolding find?
letter-found = refl

processed_example :
    (x : OutboundEmail) × (email_by_id 7
        (process_outbound_email office 100 200 3 7 accepts created.db)
      ≡ some x)
    × IsDelivered 200 (attempted letter accepts) letter x
processed_example =
    processed office 100 200 3 accepts created.db letter refl refl letter-UniqueIds letter-found
      refl

abbrev busy : Failure
busy = record { response_code = some 421; code = ""; tells_of_disconnect = false }

one_round :
    Rounds office 7 1 created.db (process_outbound_email office 100 200 3 7 (fails busy) created.db)
one_round =
    round 0 100 200 3 (fails busy) created.db
      (process_outbound_email office 100 200 3 7 (fails busy) created.db) letter letter-found refl
      (stop (process_outbound_email office 100 200 3 7 (fails busy) created.db))

deliveries_end_example : letter.attempts + 1 ≤ outbox_max_attempts
deliveries_end_example =
    deliveries_end office 1 created.db
      (process_outbound_email office 100 200 3 7 (fails busy) created.db) letter refl refl
      letter-UniqueIds letter-found (λ w. omega arith) (omega arith) one_round

classify_failure-Verdict_example : Verdict 200 busy 1 (classify_failure 200 busy 1)
classify_failure-Verdict_example = classify_failure-Verdict 200 busy 1

escape_html-Shows_example : Shows (escape_html (60 ∷ 98 ∷ 38 ∷ [])) (60 ∷ 98 ∷ 38 ∷ [])
escape_html-Shows_example = escape_html-Shows (60 ∷ 98 ∷ 38 ∷ [])

abbrev plain_strings : Strings
plain_strings = record { lower = λ t. t; trim = λ t. t }

abbrev pre : Html
pre = record { open_tag = 60 ∷ 112 ∷ 62 ∷ []; close_tag = 60 ∷ 47 ∷ 62 ∷ [] }

abbrev notice : WorkflowTicketEmailInput
notice = record {
  ticket_id = 4;
  to_address = 97 ∷ [];
  subject = 115 ∷ [];
  text = 104 ∷ 105 ∷ [];
  idempotency_key = 107 ∷ [];
}

abbrev requesters : List Requester
requesters = record { ticket_id = 4; requester_email = some (97 ∷ []) } ∷ []

abbrev noticed : List Command × ℕ
unfolding workflow_command normalize_email
noticed =
    (workflow_command pre 9 notice (normalize_email (λ t. t) notice.to_address) notice.text ∷ [], 9)

notice-ok : create_workflow_ticket_email plain_strings pre requesters 9 notice [] [] ≡ ok noticed
unfolding create_workflow_ticket_email
notice-ok = refl

notice_address :
    normalize_email (λ t. t) (normalize_email (λ t. t) notice.to_address)
    ≡ normalize_email (λ t. t) notice.to_address
unfolding normalize_email
notice_address = refl

create_workflow_ticket_email_lem_example :
    (c : Command) × (find? (has_key notice.idempotency_key) noticed.0 ≡ some c)
    × (c.id ≡ noticed.1)
    × IsAsked plain_strings pre notice c
create_workflow_ticket_email_lem_example =
    create_workflow_ticket_email_lem plain_strings pre requesters 9 notice [] [] noticed
      notice_address notice-ok
