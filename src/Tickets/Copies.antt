-- ===== src/Tickets/Copies.antt =====
-- Hidden and visible recipients of a staff reply in apps/api/src/modules/tickets/tickets.service.ts.
use kayaka_style_hd.Prelude.{
  ok, bind-eq-ok, require-eq-ok, ok-injective, ◌≤◌, ◌<◌, ◌≡◌, refl, sym, ap, ◌∙◌, subst, inl, inr,
  Bool, true, false, not, ◌&&◌, Option, none, some, List, [], ◌∷◌, arith, ltb, if◌then◌else◌,
  Bool-cases, is_some, All, All-append, All-map, find?, count_where, update_where, keep,
  is_some-find?, All-keep_if,
}
use kayaka_style_hd.Common.Email.{Text, same_text, is_empty, normalize_email}
use kayaka_style_hd.Common.Texts.{same_text-eq}
use kayaka_style_hd.Mail.Store.{Role, to, cc, bcc, Recipient}
use kayaka_style_hd.Tickets.Recipients.{
  is_bcc, has_email, put, is_usable, add_copy, add_copies, requester_recipient,
  normalize_outbound_recipients, invalid_requester, missing_requester,
}
use kayaka_style_hd.Tickets.AddressMap.{IsVisible, put-IsVisible, put-grows, put-found}

module _ (lower : Text → Text) (is_address : Text → Bool) where
  add_copy-IsVisible :
      (e : Text) (m : List Recipient)
      → All IsVisible m
      → All IsVisible (add_copy lower is_address cc e m)
  unfolding add_copy
  add_copy-IsVisible e m v = elim (Bool-cases (is_usable lower is_address e)) [
    | inl t ↦ rw t (
        put-IsVisible (normalize_email lower e) m (find? (has_email (normalize_email lower e)) m)
          refl v)
    | inr t ↦ rw t v
  ]

  add_copy-grows :
      (role : Role) (e x : Text) (m : List Recipient)
      → count_where (has_email x) m ≤ count_where (has_email x) (add_copy lower is_address role e m)
  unfolding add_copy
  add_copy-grows role e x m = elim (Bool-cases (is_usable lower is_address e)) [
    | inl t ↦ rw t (
        put-grows (normalize_email lower e) x role m
          (find? (has_email (normalize_email lower e)) m))
    | inr t ↦ rw t (omega arith)
  ]

  add_copy-found :
      (role : Role) (e : Text) (m : List Recipient)
      → is_usable lower is_address e ≡ true
      → 0 < count_where (has_email (normalize_email lower e)) (add_copy lower is_address role e m)
  unfolding add_copy
  add_copy-found role e m t = rw t (
      put-found (normalize_email lower e) role m (find? (has_email (normalize_email lower e)) m)
        refl)

  add_copies-IsVisible :
      (es : List Text) (m : List Recipient)
      → All IsVisible m
      → All IsVisible (add_copies lower is_address cc es m)
  unfolding add_copies
  add_copies-IsVisible [] m v = v
  add_copies-IsVisible (e ∷ es) m v =
      add_copies-IsVisible es (add_copy lower is_address cc e m) (add_copy-IsVisible e m v)

  add_copies-grows :
      (role : Role) (es : List Text) (x : Text) (m : List Recipient)
      → count_where (has_email x) m
        ≤ count_where (has_email x) (add_copies lower is_address role es m)
  unfolding add_copies
  add_copies-grows role [] x m = omega arith
  add_copies-grows role (e ∷ es) x m = omega (
    arith,
    add_copies-grows role es x (add_copy lower is_address role e m),
    add_copy-grows role e x m,
  )

  add_copies-found :
      (role : Role) (es : List Text) (m : List Recipient)
      → All
          (λ e.
            is_usable lower is_address e ≡ true
            → 0
              < count_where
                  (has_email (normalize_email lower e))
                  (add_copies lower is_address role es m))
          es
  unfolding add_copies
  add_copies-found role [] m = tt
  add_copies-found role (e ∷ es) m = (
    λ t. omega (
      arith,
      add_copy-found role e m t,
      add_copies-grows role es (normalize_email lower e) (add_copy lower is_address role e m),
    ),
    add_copies-found role es (add_copy lower is_address role e m),
  )

  -- A hidden recipient is none of those before.
  abbrev pub IsApart : List Recipient → Recipient → Type 0
  IsApart before r = is_bcc r.role ≡ true → count_where (has_email r.email) before ≡ 0

  put_bcc-IsApart :
      (before m : List Recipient)
      → ((x : Text) → count_where (has_email x) before ≤ count_where (has_email x) m)
      → All (IsApart before) m
      → (n : Text) (o : Option Recipient) → find? (has_email n) m ≡ o
      → All (IsApart before) (put n bcc m o)
  unfolding put
  put_bcc-IsApart before m g a n none f =
      let no : ltb 0 (count_where (has_email n) m) ≡ false =
        sym (is_some-find? (has_email n) m) ∙ ap is_some f in
      let le = g n in
      All-append (IsApart before) m (record { email = n; role = bcc } ∷ []) a
        ((λ b. ground arith), tt)
  put_bcc-IsApart before m g a n (some old) f =
      let no : (is_bcc old.role && not true) ≡ false = ground arith in
      subst
        (λ b.
          All (IsApart before)
            (if b then update_where (has_email n) (λ r. record r { role = bcc }) m else m))
        (sym no) a

  add_bcc-IsApart :
      (before : List Recipient) (e : Text) (m : List Recipient)
      → ((x : Text) → count_where (has_email x) before ≤ count_where (has_email x) m)
      → All (IsApart before) m
      → All (IsApart before) (add_copy lower is_address bcc e m)
  unfolding add_copy
  add_bcc-IsApart before e m g a = elim (Bool-cases (is_usable lower is_address e)) [
    | inr t ↦ rw t a
    | inl t ↦ rw t (
        put_bcc-IsApart before m g a (normalize_email lower e)
          (find? (has_email (normalize_email lower e)) m) refl)
  ]

  add_bccs-IsApart :
      (before : List Recipient) (es : List Text) (m : List Recipient)
      → ((x : Text) → count_where (has_email x) before ≤ count_where (has_email x) m)
      → All (IsApart before) m
      → All (IsApart before) (add_copies lower is_address bcc es m)
  unfolding add_copies
  add_bccs-IsApart before [] m g a = a
  add_bccs-IsApart before (e ∷ es) m g a =
      add_bccs-IsApart before es (add_copy lower is_address bcc e m)
        (λ x. omega (arith, g x, add_copy-grows bcc e x m)) (add_bcc-IsApart before e m g a)

  -- A text that no recipient before has is neither the requester's nor a usable copy's.
  unlisted :
      (before : List Recipient) (x : Text) (es : List Text)
      → count_where (has_email x) before ≡ 0
      → All
          (λ e.
            is_usable lower is_address e ≡ true
            → 0 < count_where (has_email (normalize_email lower e)) before)
          es
      → All
          (λ e. is_usable lower is_address e ≡ true → same_text (normalize_email lower e) x ≡ false)
          es
  unlisted before x es z h =
      All-map
        (λ e.
          is_usable lower is_address e ≡ true
          → 0 < count_where (has_email (normalize_email lower e)) before)
        (λ e. is_usable lower is_address e ≡ true → same_text (normalize_email lower e) x ≡ false)
        (λ e k t. elim (Bool-cases (same_text (normalize_email lower e) x)) [
          | inr n ↦ n
          | inl y ↦
              let same = same_text-eq (normalize_email lower e) x y in
              let p = subst (λ w. 0 < count_where (has_email w) before) same (k t) in
              absurd (omega arith)
        ])
        es h

-- A hidden recipient that is none of the usable addresses of the list.
abbrev IsUnlisted : (Text → Text) → (Text → Bool) → List Text → Recipient → Type 0
IsUnlisted lower is_address es r =
    is_bcc r.role ≡ true
    → All
        (λ e.
          is_usable lower is_address e ≡ true → same_text (normalize_email lower e) r.email ≡ false)
        es

-- Where a staff reply has recipients, a hidden one (BCC) is never an address that was asked for as a
-- visible copy: whoever is named in CC, by the reply or by the ticket, is not hidden.
pub bcc_apart :
    (lower : Text → Text) (is_address : Text → Bool) (requester : Text)
    (cc_emails bcc_emails : List Text) (rs : List Recipient)
    → normalize_outbound_recipients lower is_address requester cc_emails bcc_emails ≡ ok rs
    → All
        (λ r.
          All
            (λ e. same_text (normalize_email lower e) r.email ≡ false)
            (keep (is_usable lower is_address) cc_emails))
        (keep (λ r. is_bcc r.role) rs)
unfolding normalize_outbound_recipients requester_recipient
bcc_apart lower is_address requester cc_emails bcc_emails rs h =
    let first : List Recipient =
      record { email = normalize_email lower requester; role = to } ∷ [] in
    let (m, made, done) =
      bind-eq-ok (requester_recipient lower is_address requester)
        (λ m.
          ok (
            add_copies lower is_address bcc bcc_emails
              (add_copies lower is_address cc cc_emails m)))
        h in
    let h1 = (require-eq-ok (not (is_empty requester)) missing_requester _ made).1 in
    let h2 =
      (require-eq-ok (is_address (normalize_email lower requester)) invalid_requester _ h1).1 in
    let start : first ≡ m = ok-injective h2 in
    let before = add_copies lower is_address cc cc_emails m in
    let seen =
      add_copies-IsVisible lower is_address cc_emails m (subst (All IsVisible) start (refl, tt)) in
    let apart =
      add_bccs-IsApart lower is_address before bcc_emails before (λ x. omega arith)
        (All-map IsVisible (IsApart lower is_address before) (λ r v b. absurd (ground arith)) before
          seen) in
    let listed = add_copies-found lower is_address cc cc_emails m in
    let all_unlisted = subst (All (IsUnlisted lower is_address cc_emails)) (ok-injective done) (
      All-map (IsApart lower is_address before) (IsUnlisted lower is_address cc_emails)
        (λ r k b. unlisted lower is_address before r.email cc_emails (k b) listed)
        (add_copies lower is_address bcc bcc_emails before) apart) in
    All-keep_if
      (λ r.
        All (λ e. same_text (normalize_email lower e) r.email ≡ false)
          (keep (is_usable lower is_address) cc_emails))
      (λ r. is_bcc r.role) rs
      (All-map (IsUnlisted lower is_address cc_emails)
        (λ r.
          is_bcc r.role ≡ true
          → All (λ e. same_text (normalize_email lower e) r.email ≡ false)
              (keep (is_usable lower is_address) cc_emails))
        (λ r u b.
          All-keep_if (λ e. same_text (normalize_email lower e) r.email ≡ false)
            (is_usable lower is_address) cc_emails (u b))
        rs all_unlisted)
