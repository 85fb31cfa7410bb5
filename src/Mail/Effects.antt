-- ===== src/Mail/Effects.antt =====
-- The effect of `processOutboundEmail` in apps/api/src/modules/mail/mail.service.ts on a due command.
use kayaka_style_hd.Prelude.{
  ℕ, ◌+◌, ◌≡◌, refl, sym, ap, ◌∙◌, subst, inl, inr, Bool, true, false, ◌&&◌, none, some, arith,
  ◌==◌, if◌then◌else◌, Bool-cases, All-map, count_where, count_where_mono, count_where_none,
  find?-unique, update_where_none, find?-update_where, count_where_pos,
}
use kayaka_style_hd.Mail.Store.{
  email_by_id, sent, ambiguous, Failure, lease_expired, delivery_failed, OutboundEmail, MailDb,
  Config,
}
use kayaka_style_hd.Mail.Outbox.{
  is_allowed_outbound_canary_id, matches_outbound_canary_recipient,
  is_approved_outbound_canary_command, is_due, is_stale, released, is_id_or_any,
  mark_stale_processing_ambiguous, claimed, is_claimable, claim, is_fenced, settle_row,
  accepted_row, mark_sent, classify_failure, failed_row, record_delivery_failure,
}
use kayaka_style_hd.Mail.Delivery.{
  can_be_sent, leased, check_leased, after_claim, after_stale, start_delivery, local_failure,
  settle_result, finish_delivery, deliver_started, process_outbound_email, SmtpResult, accepts,
  fails,
}
use kayaka_style_hd.Mail.Workers.{has_id}
use kayaka_style_hd.Mail.Rows.{UniqueIds}
use kayaka_style_hd.Mail.Updates.{mark_sent-emails}

-- What is written over a claimed row, for each result of its attempt.
abbrev pub settled : ℕ → SmtpResult → OutboundEmail → OutboundEmail
settled now accepts e = accepted_row now e
settled now (fails why) e = failed_row (classify_failure now why e.attempts) why e

-- The result that an attempt has: a command that cannot be rendered fails before SMTP.
abbrev pub attempted : OutboundEmail → SmtpResult → SmtpResult
attempted e r = if can_be_sent e then r else fails local_failure

module _ (now owner : ℕ) (db : MailDb) (r : OutboundEmail) (here : email_by_id r.id db ≡ some r)
    (unique : UniqueIds db.emails) (due : is_due now r ≡ true) where
  same_row :
      (test : OutboundEmail → Bool)
      → (q : (x : OutboundEmail) → test x ≡ true → has_id r.id x ≡ true) → test r ≡ false
      → count_where test db.emails ≡ 0
  same_row test q n = count_where_none test db.emails (
      All-map (λ x. (x.id == r.id) ≡ true → x ≡ r) (λ x. test x ≡ false)
        (λ x h. elim (Bool-cases (test x)) [
          | inr f ↦ f
          | inl t ↦ let e = h (q x t) in subst (λ y. test y ≡ false) (sym e) n
        ])
        db.emails (find?-unique (λ x. x.id == r.id) db.emails r here (unique r.id)))

  no_stale : mark_stale_processing_ambiguous now (some r.id) db ≡ (db, 0)
  unfolding mark_stale_processing_ambiguous
  no_stale =
      let n =
        same_row (λ x. is_id_or_any (some r.id) x && is_stale now x) (λ x t. ground arith)
          (ground arith) in
      let e =
        update_where_none (λ x. is_id_or_any (some r.id) x && is_stale now x)
          (released ambiguous none (some lease_expired)) db.emails n in
      rw (n, e) refl

  one_claim : (claim now owner r.id db).1 ≡ 1
  unfolding claim
  one_claim = omega (
    arith,
    unique r.id,
    count_where_mono (is_claimable now r.id) (has_id r.id) db.emails (λ x p. ground arith),
    count_where_pos (has_id r.id) (is_claimable now r.id) db.emails r here (ground arith),
  )

  claimed_here : email_by_id r.id (claim now owner r.id db).0 ≡ some (claimed now owner r)
  unfolding claim
  claimed_here =
      let k =
        find?-update_where (λ x. x.id == r.id) (is_claimable now r.id) (claimed now owner) db.emails
          (λ x. refl) in
      let t : is_claimable now r.id r ≡ true = ground arith in let l = rw (here, t) at k in l

  leased_here :
      (c : Config) (d : MailDb)
      → c.canary ≡ none
      → check_leased c owner d (leased owner (some (claimed now owner r)))
        ≡ (d, some (claimed now owner r))
  unfolding matches_outbound_canary_recipient
  leased_here c d free =
      let yes : leased owner (some (claimed now owner r)) ≡ some (claimed now owner r) =
        ground arith in
      rw (yes, free) refl

  -- The claim succeeds, and the worker has the claimed row.
  pub starts :
      (c : Config)
      → c.outbound_enabled ≡ true
      → c.canary ≡ none
      → start_delivery c now owner r.id db
        ≡ ((claim now owner r.id db).0, some (claimed now owner r))
  unfolding start_delivery is_approved_outbound_canary_command is_allowed_outbound_canary_id
  starts c on free =
      let approved : (c.outbound_enabled && is_approved_outbound_canary_command c r.id db) ≡ true =
        rw (on, free) refl in
      ap
        (λ t.
          if t
          then after_stale c now owner r.id (mark_stale_processing_ambiguous now (some r.id) db).0
              (mark_stale_processing_ambiguous now (some r.id) db).1
          else (db, none))
        approved
      ∙ ap (λ s. after_stale c now owner r.id s.0 s.1) no_stale
      ∙ ap (λ n. after_claim c owner r.id (claim now owner r.id db).0 n) one_claim
      ∙ ap (λ o. check_leased c owner (claim now owner r.id db).0 (leased owner o)) claimed_here
      ∙ leased_here c (claim now owner r.id db).0 free

  pub settled_here :
      (f : OutboundEmail → OutboundEmail)
      → ((x : OutboundEmail) → (f x).id ≡ x.id)
      → email_by_id r.id
          (settle_row r.id owner (claimed now owner r).lease_version f (claim now owner r.id db).0)
        ≡ some (f (claimed now owner r))
  unfolding settle_row
  settled_here f same =
      let k =
        find?-update_where (λ x. x.id == r.id) (is_fenced r.id owner (r.lease_version + 1)) f
          (claim now owner r.id db).0.emails (λ x. let h = same x in ground arith) in
      let t : is_fenced r.id owner (r.lease_version + 1) (claimed now owner r) ≡ true =
        ground arith in
      let l = rw (claimed_here, t) at k in l

  failure_here :
      (later : ℕ) (why : Failure)
      → email_by_id r.id (
          record_delivery_failure later (claimed now owner r) owner why (claim now owner r.id db).0)
        ≡ some (settled later (fails why) (claimed now owner r))
  unfolding record_delivery_failure
  failure_here later why =
      settled_here (failed_row (classify_failure later why (r.attempts + 1)) why) (λ x. refl)

  sent_here :
      (later : ℕ)
      → email_by_id r.id (mark_sent later (claimed now owner r) owner (claim now owner r.id db).0).0
        ≡ some (accepted_row later (claimed now owner r))
  unfolding settle_row
  sent_here later =
      rw (mark_sent-emails later (claimed now owner r) owner (claim now owner r.id db).0)
        (settled_here (accepted_row later) (λ x. refl))

  result_here :
      (later : ℕ) (s : SmtpResult)
      → email_by_id r.id
          (settle_result later (claimed now owner r) owner s (claim now owner r.id db).0)
        ≡ some (settled later s (claimed now owner r))
  result_here later accepts = sent_here later
  result_here later (fails why) = failure_here later why

  finished_here :
      (later : ℕ) (s : SmtpResult)
      → email_by_id r.id
          (finish_delivery later (claimed now owner r) owner s (claim now owner r.id db).0)
        ≡ some (settled later (attempted r s) (claimed now owner r))
  unfolding finish_delivery can_be_sent
  finished_here later s = elim (Bool-cases (can_be_sent r)) [
    | inl t ↦ rw t (result_here later s)
    | inr t ↦ rw t (failure_here later local_failure)
  ]

pub processed_row :
    (c : Config) (now later owner : ℕ) (s : SmtpResult) (db : MailDb) (r : OutboundEmail)
    → c.outbound_enabled ≡ true
    → c.canary ≡ none
    → UniqueIds db.emails
    → email_by_id r.id db ≡ some r
    → is_due now r ≡ true
    → email_by_id r.id (process_outbound_email c now later owner r.id s db)
      ≡ some (settled later (attempted r s) (claimed now owner r))
unfolding process_outbound_email
processed_row c now later owner s db r on free u here due =
    ap (λ d. email_by_id r.id (deliver_started later owner s d))
      (starts now owner db r here u due c on free)
    ∙ finished_here now owner db r here u due later s

-- What becomes of a row under a result.
abbrev pub HasResult : ℕ → OutboundEmail → SmtpResult → OutboundEmail → Type 0
HasResult later r accepts x =
    (x.state ≡ sent)
    × (x.accepted_at ≡ some later)
    × (x.sent_at ≡ some later)
    × (x.next_attempt_at ≡ none)
    × (x.last_error ≡ none)
HasResult later r (fails why) x =
    ((x.state, x.next_attempt_at) ≡ classify_failure later why (r.attempts + 1))
    × (x.last_error ≡ some (delivery_failed why))
    × (x.accepted_at ≡ r.accepted_at)
    × (x.sent_at ≡ r.sent_at)

-- The row of a command after one delivery.
pub record IsDelivered (later : ℕ) (s : SmtpResult) (r x : OutboundEmail) : Type 0 where
  pub same_id : x.id ≡ r.id
  pub same_kind : x.kind ≡ r.kind
  pub same_recipients : x.recipients ≡ r.recipients
  pub counted : x.attempts ≡ r.attempts + 1
  pub leased_again : x.lease_version ≡ r.lease_version + 1
  pub free : (x.lease_owner ≡ none) × (x.lease_expires_at ≡ none)
  pub result : HasResult later r s x

settled-IsDelivered :
    (now later owner : ℕ) (s : SmtpResult) (r : OutboundEmail)
    → IsDelivered later s r (settled later s (claimed now owner r))
settled-IsDelivered now later owner accepts r = record {
  same_id = refl;
  same_kind = refl;
  same_recipients = refl;
  counted = refl;
  leased_again = refl;
  free = (refl, refl);
  result = (refl, refl, refl, refl, refl);
}
settled-IsDelivered now later owner (fails why) r = record {
  same_id = refl;
  same_kind = refl;
  same_recipients = refl;
  counted = refl;
  leased_again = refl;
  free = (refl, refl);
  result = (refl, refl, refl, refl);
}

-- With outbound mail on, no canary set and the ids unique, `processOutboundEmail` on a due command
-- makes one attempt and leaves the row under no lease, with one more attempt and lease version. Where
-- the relay accepts it, the row is `SENT` at that time, with no error and no next attempt. Where the
-- relay or, for a command that cannot be rendered, the code before SMTP fails, the row has the state
-- and next attempt that `classifyFailure` says for its new number of attempts, and keeps its times of
-- acceptance and sending.
pub processed :
    (c : Config) (now later owner : ℕ) (s : SmtpResult) (db : MailDb) (r : OutboundEmail)
    → c.outbound_enabled ≡ true
    → c.canary ≡ none
    → UniqueIds db.emails
    → email_by_id r.id db ≡ some r
    → is_due now r ≡ true
    → (x : OutboundEmail) × (email_by_id r.id (process_outbound_email c now later owner r.id s db)
        ≡ some x)
      × IsDelivered later (attempted r s) r x
processed c now later owner s db r on free u here due = (
  settled later (attempted r s) (claimed now owner r),
  processed_row c now later owner s db r on free u here due,
  settled-IsDelivered now later owner (attempted r s) r,
)
