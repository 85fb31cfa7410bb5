-- ===== src/Mail/Claims.antt =====
-- The claim of a row by `processOutboundEmail`, and the operator's retry, in
-- apps/api/src/modules/mail/mail.service.ts: what they keep of the rows.
use kayaka_style_hd.Prelude.{
  ℕ, ◌+◌, ◌≤◌, ◌≡◌, refl, sym, subst, inl, inr, true, ◌&&◌, Option, none, some, List, arith, ◌==◌,
  if◌then◌else◌, Bool-cases, Option-cases, All-of, count_where, find?-sound, All-find?,
  count_where-update_where_out, count_where-update_where_le,
}
use kayaka_style_hd.Mail.Store.{email_by_id, failed, canary_rejected, OutboundEmail, MailDb, Config}
use kayaka_style_hd.Mail.Outbox.{
  matches_outbound_canary_recipient, is_approved_outbound_canary_command, released,
  mark_stale_processing_ambiguous, claimed, is_claimable, claim, settle_row,
}
use kayaka_style_hd.Mail.Delivery.{leased, check_leased, after_claim, start_delivery}
use kayaka_style_hd.Mail.Rows.{
  waits_for, AllSound, UniqueIds, none_freed, same-Keeps, then-Keeps, IsSound, Keeps,
}
use kayaka_style_hd.Mail.Updates.{frees, stale-Keeps, claim-Keeps, released-Keeps}

abbrev pub taken : Option OutboundEmail → ℕ → ℕ
taken none id = 0
taken (some e) id = frees e id

-- A start of a delivery: the started row waits no more, and its attempt is counted.
pub record Starts (accepted retried : List ℕ) (before : List OutboundEmail)
    (s : MailDb × Option OutboundEmail) : Type 0 where
  pub slots :
      (id : ℕ)
      → count_where (waits_for id) s.0.emails + taken s.1 id ≤ count_where (waits_for id) before
  pub unique : UniqueIds before → UniqueIds s.0.emails
  pub sound : AllSound accepted retried before → AllSound accepted retried s.0.emails
  pub counted :
      AllSound accepted retried before
      → (e : OutboundEmail) → s.1 ≡ some e
      → e.attempts ≡ e.lease_version

-- The claimed row waits no more.
claim-slots :
    (now owner id : ℕ) (db : MailDb) (i : ℕ)
    → (claim now owner id db).1 ≡ 1
    → count_where (waits_for i) (claim now owner id db).0.emails + (if id == i then 1 else 0)
      ≤ count_where (waits_for i) db.emails
unfolding claim
claim-slots now owner id db i h = elim (Bool-cases (id == i)) [
  | inl t ↦
      let out =
        count_where-update_where_out (waits_for i) (is_claimable now id) (claimed now owner)
          db.emails
          (All-of (λ r. is_claimable now id r ≡ true → waits_for i r ≡ true) (λ r p. ground arith)
            db.emails)
          (λ r p. ground arith) in
      rw t (omega arith)
  | inr t ↦ rw t (
      omega (
        arith,
        count_where-update_where_le (waits_for i) (is_claimable now id) (claimed now owner)
            db.emails (λ r p w. ground arith),
      ))
]

leased-some :
    (owner : ℕ) (o : Option OutboundEmail) (e : OutboundEmail)
    → leased owner o ≡ some e
    → o ≡ some e
leased-some owner none e h = absurd (cc)
leased-some owner (some r) e h = ground arith

module _ {accepted retried : List ℕ} where
  nothing-Starts :
      {rs : List OutboundEmail} (db : MailDb)
      → Keeps accepted retried none_freed rs db.emails
      → Starts accepted retried rs (db, none)
  nothing-Starts db k = record {
    slots = λ id. omega (arith, k.slots id);
    unique = k.unique;
    sound = k.sound;
    counted = λ s e h. absurd (cc);
  }

  check_leased-Starts :
      (c : Config) (owner : ℕ) {rs : List OutboundEmail} (db : MailDb) (r : OutboundEmail)
      → email_by_id r.id db ≡ some r
      → Keeps accepted retried none_freed rs db.emails
      → ((id : ℕ)
          → count_where (waits_for id) db.emails + (if r.id == id then 1 else 0)
            ≤ count_where (waits_for id) rs)
      → Starts accepted retried rs (check_leased c owner db (some r))
  check_leased-Starts c owner db r f k h =
      elim (Bool-cases (matches_outbound_canary_recipient c r.recipients)) [
        | inl t ↦ rw t record {
          slots = h;
          unique = k.unique;
          sound = k.sound;
          counted = λ s e q.
              let here =
                All-find? (IsSound accepted retried) (λ x. x.id == r.id) db.emails r (k.sound s)
                  f in
              let n = here.counted in
              let same : r ≡ e = cc in subst (λ x. x.attempts ≡ x.lease_version) same n;
        }
        | inr t ↦ rw t (
            nothing-Starts
              (settle_row r.id owner r.lease_version (released failed none (some canary_rejected))
                db)
              (then-Keeps k (
                released-Keeps r.id owner r.lease_version failed none (some canary_rejected) db refl
                  refl refl)))
      ]

  leased-Starts :
      (c : Config) (owner id : ℕ) {rs : List OutboundEmail} (db : MailDb) (o : Option OutboundEmail)
      → email_by_id id db ≡ o
      → Keeps accepted retried none_freed rs db.emails
      → ((i : ℕ)
          → count_where (waits_for i) db.emails + (if id == i then 1 else 0)
            ≤ count_where (waits_for i) rs)
      → Starts accepted retried rs (check_leased c owner db (leased owner o))
  leased-Starts c owner id db none f k h = nothing-Starts db k
  leased-Starts c owner id db (some r) f k h = elim (Option-cases (leased owner (some r))) [
    | inl n ↦ rw n (nothing-Starts db k)
    | inr (e, q) ↦
        let same : r ≡ e = let p = leased-some owner (some r) e q in cc in
        let here : (r.id == id) ≡ true = find?-sound (λ x. x.id == id) db.emails r f in
        let at : r.id ≡ id = ground arith in
        rw (q, sym same)
          (check_leased-Starts c owner db r (subst (λ i. email_by_id i db ≡ some r) (sym at) f) k
            (λ i. rw at (h i)))
  ]

  after_claim-Starts :
      (c : Config) (now owner id : ℕ) {rs : List OutboundEmail} (db : MailDb)
      → Keeps accepted retried none_freed rs db.emails
      → Starts accepted retried rs
          (after_claim c owner id (claim now owner id db).0 (claim now owner id db).1)
  after_claim-Starts c now owner id db k =
      let kept = then-Keeps k (claim-Keeps now owner id db) in
      elim (Bool-cases ((claim now owner id db).1 == 1)) [
        | inl t ↦ rw t (
            leased-Starts c owner id (claim now owner id db).0
              (email_by_id id (claim now owner id db).0) refl kept
              (λ i. omega (arith, k.slots i, claim-slots now owner id db i (ground arith))))
        | inr t ↦ rw t (nothing-Starts (claim now owner id db).0 kept)
      ]

  pub start_delivery-Starts :
      (c : Config) (now owner id : ℕ) (db : MailDb)
      → Starts accepted retried db.emails (start_delivery c now owner id db)
  unfolding start_delivery
  start_delivery-Starts c now owner id db =
      let kept = stale-Keeps now (some id) db in
      elim (Bool-cases (c.outbound_enabled && is_approved_outbound_canary_command c id db)) [
        | inr t ↦ rw t (nothing-Starts db (same-Keeps db.emails))
        | inl t ↦ elim (Bool-cases ((mark_stale_processing_ambiguous now (some id) db).1 == 0)) [
          | inl z ↦
              rw (t, z)
                (after_claim-Starts c now owner id
                  (mark_stale_processing_ambiguous now (some id) db).0 kept)
          | inr z ↦
              rw (t, z) (nothing-Starts (mark_stale_processing_ambiguous now (some id) db).0 kept)
        ]
      ]
