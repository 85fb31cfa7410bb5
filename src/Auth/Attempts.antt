-- ===== src/Auth/Attempts.antt =====
-- When the login throttle of apps/api/src/auth/login-throttle.service.ts answers 429.
use Prim.Native.String.{String}
use text.Mathlib.TextPositions.{eq_refl}
use text.Mathlib.TextEquality.{eq_iff}
use kayaka_style_hd.Prelude.{
  ℕ, ◌+◌, ◌*◌, ◌<◌, ◌≡◌, refl, ap, ◌∙◌, inl, inr, true, false, Option, none, some, List, [], ◌∷◌,
  arith, leb, if◌then◌else◌, Bool-cases, length, drop_where,
}
use kayaka_style_hd.Auth.Store.{too_many_attempts, ok, err}
use kayaka_style_hd.Auth.Throttle.{
  FailureKey, FailureCount, Redis, window_seconds, same_key, failure_count, drop_key, incr_expire,
  key, assert_not_throttled, record_failure, clear, or_zero,
}

pub same_key_refl : (k : FailureKey) → same_key k k ≡ true
same_key_refl k = simp eq_refl (ground arith)

same_key-trans_false :
    (a b c : FailureKey) → same_key a b ≡ true → same_key b c ≡ false → same_key a c ≡ false
same_key-trans_false a b c h k =
    ground (arith, eq_iff a.ip b.ip, eq_iff b.ip c.ip, eq_iff a.ip c.ip)

-- Without the entries of a key nothing is counted for it, and the other keys keep their counts.
failure_count-drop_key_self :
    (now : ℕ) (k : FailureKey) (fs : List FailureCount) → failure_count now k (drop_key k fs) ≡ none
unfolding failure_count drop_where
failure_count-drop_key_self now k [] = refl
failure_count-drop_key_self now k (f ∷ fs) = ground (arith, failure_count-drop_key_self now k fs)

failure_count-drop_key_other :
    (now : ℕ) (k j : FailureKey) (fs : List FailureCount)
    → same_key k j ≡ false
    → failure_count now j (drop_key k fs) ≡ failure_count now j fs
unfolding failure_count drop_where
failure_count-drop_key_other now k j [] h = refl
failure_count-drop_key_other now k j (f ∷ fs) h = elim (Bool-cases (same_key f.key k)) [
  | inl e ↦ rw (e, same_key-trans_false f.key k j e h) (failure_count-drop_key_other now k j fs h)
  | inr e ↦ rw (e, failure_count-drop_key_other now k j fs h)
]

failure_count-incr_expire :
    (now later : ℕ) (k : FailureKey) (fs : List FailureCount)
    → later < now + window_seconds * 1000
    → failure_count later k (incr_expire now k fs) ≡ some (or_zero (failure_count now k fs) + 1)
unfolding failure_count incr_expire
failure_count-incr_expire now later k fs h = rw (same_key_refl k) (ground arith)

failure_count-incr_expire_other :
    (now later : ℕ) (k j : FailureKey) (fs : List FailureCount)
    → same_key k j ≡ false
    → failure_count later j (incr_expire now k fs) ≡ failure_count later j fs
unfolding failure_count incr_expire
failure_count-incr_expire_other now later k j fs h =
    rw h (failure_count-drop_key_other later k j fs h)

-- Each of the times stands within the window of the one before it.
abbrev pub Paced : ℕ → List ℕ → ℕ → Type 0
Paced t [] later = later < t + window_seconds * 1000
Paced t (u ∷ us) later = (u < t + window_seconds * 1000) × Paced u us later

module _ (hmac : String → ℕ) where
  -- Failed attempts at the given times.
  pub fail_at : List ℕ → Redis → String → Option String → Redis
  fail_at [] r email ip = r
  fail_at (t ∷ ts) r email ip = fail_at ts (record_failure hmac t r email ip) email ip

  record_failure_up :
      (t : ℕ) (r : Redis) (email ip : String)
      → r.up ≡ true
      → record_failure hmac t r email (some ip)
        ≡ record r { failures = incr_expire t (key hmac email ip) r.failures }
  unfolding record_failure
  record_failure_up t r email ip up = simp up

  fail_at-cons :
      (t : ℕ) (us : List ℕ) (r : Redis) (email ip : String)
      → r.up ≡ true
      → fail_at (t ∷ us) r email (some ip)
        ≡ fail_at us
            (record r { failures = incr_expire t (key hmac email ip) r.failures })
            email
            (some ip)
  unfolding fail_at
  fail_at-cons t us r email ip up =
      ap (λ x. fail_at us x email (some ip)) (record_failure_up t r email ip up)

  fail_at-count :
      (t : ℕ) (us : List ℕ) (later : ℕ) (r : Redis) (email ip : String)
      → r.up ≡ true
      → Paced t us later
      → let r' = fail_at (t ∷ us) r email (some ip) in
        (r'.up ≡ true)
        × (failure_count later (key hmac email ip) r'.failures
            ≡ some (or_zero (failure_count t (key hmac email ip) r.failures) + length (t ∷ us)))
  unfolding fail_at
  fail_at-count t [] later r email ip up h =
      rw (record_failure_up t r email ip up)
        (up, failure_count-incr_expire t later (key hmac email ip) r.failures h)
  fail_at-count t (u ∷ us) later r email ip up h =
      let k = key hmac email ip in
      let r' : Redis = record r { failures = incr_expire t k r.failures } in
      let once = failure_count-incr_expire t u k r.failures h.0 in
      let (still, counted) = fail_at-count u us later r' email ip up h.1 in
      rw (fail_at-cons t (u ∷ us) r email ip up)
        (still, counted ∙ ap some (ap (λ o. or_zero o + length (u ∷ us)) once ∙ omega arith))

  -- After failed logins for an email from an IP, with no success between them and each within 15
  -- minutes of the one before, the next attempt within the window is refused exactly if there were
  -- ten or more, where none was counted before the first and Redis answers.
  pub assert_not_throttled_exact :
      (t : ℕ) (us : List ℕ) (later : ℕ) (r : Redis) (email ip : String)
      → r.up ≡ true
      → failure_count t (key hmac email ip) r.failures ≡ none
      → Paced t us later
      → assert_not_throttled hmac later (fail_at (t ∷ us) r email (some ip)) email (some ip)
        ≡ (if leb 10 (length (t ∷ us)) then err too_many_attempts else ok tt)
  unfolding assert_not_throttled
  assert_not_throttled_exact t us later r email ip up h p =
      let (still, counted) = fail_at-count t us later r email ip up p in
      rw (still, counted, h) (ground arith)

  -- A failed login counts for no other pair of an email digest and an IP.
  pub record_failure_other :
      (now later : ℕ) (r : Redis) (email ip email' ip' : String)
      → same_key (key hmac email ip) (key hmac email' ip') ≡ false
      → assert_not_throttled hmac later
          (record_failure hmac now r email (some ip))
          email'
          (some ip')
        ≡ assert_not_throttled hmac later r email' (some ip')
  unfolding assert_not_throttled
  record_failure_other now later r email ip email' ip' h = elim (Bool-cases r.up) [
    | inl up ↦ rw (record_failure_up now r email ip up) (
        rw
          (failure_count-incr_expire_other now later (key hmac email ip) (key hmac email' ip')
            r.failures h)
          refl)
    | inr down ↦
        let same : record_failure hmac now r email (some ip) ≡ r =
          unfold record_failure in simp down in
        rw same
  ]

  -- After a success nothing is counted for its pair, and the next attempt is not refused.
  pub clear-assert_not_throttled :
      (later : ℕ) (r : Redis) (email : String) (ip : Option String)
      → assert_not_throttled hmac later (clear hmac r email ip) email ip ≡ ok tt
  unfolding assert_not_throttled clear
  clear-assert_not_throttled later r email none = refl
  clear-assert_not_throttled later r email (some ip) =
      ground (arith, failure_count-drop_key_self later (key hmac email ip) r.failures)
