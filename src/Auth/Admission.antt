-- ===== src/Auth/Admission.antt =====
-- What the guard of apps/api/src/auth/jwt-auth.guard.ts has checked of a request that it admits.
use kayaka_style_hd.Prelude.{
  ℕ, ◌≤◌, ◌<◌, ◌≡◌, refl, sym, inl, inr, Bool, true, false, not, ◌&&◌, Option, none, some, List, [],
  ◌∷◌, arith, ltb, ◌==◌, any, find?, All, Bool-cases,
}
use kayaka_style_hd.Auth.Store.{
  Staff, missing_access_token, ok, require-eq-ok, found-eq-ok, ok-injective,
}
use kayaka_style_hd.Auth.Throttle.{is_blocked, is_staff_token_stale, BlockedJti, StaffCutoff, Redis}
use kayaka_style_hd.Auth.Tokens.{
  AuthStaff, AccessClaims, Crypto, World, build_principal, enabled, staff_by_id,
}
use kayaka_style_hd.Auth.Reads.{enabled-eq-some}
use kayaka_style_hd.Auth.Guard.{
  Request, public_route, as_staff, token_of, same_version, check_token, can_activate,
}

pub record IsAdmitted (c : Crypto) (now : ℕ) (w : World) (req : Request) (a : AuthStaff)
    : Type 0 where
  pub token : ℕ
  pub presented : token_of req ≡ some token
  pub claims : AccessClaims
  pub verified : c.verify_access now token ≡ some claims
  pub unblocked :
      w.redis.up ≡ true → All (λ b. claims.jti ≡ some b.jti → b.expires_at ≤ now) w.redis.blocked
  pub fresh :
      w.redis.up ≡ true
      → (ms : ℕ) (cut : StaffCutoff) → claims.issued_at_ms ≡ some ms
      → 0 < ms
      → 0 < claims.principal.staff_id
      → find? (λ x. x.staff_id == claims.principal.staff_id && ltb now x.expires_at) w.redis.cutoffs
        ≡ some cut
      → 1_000_000_000_000 ≤ cut.cutoff_ms
      → cut.cutoff_ms < ms
  pub staff : Staff
  pub stored : staff_by_id claims.principal.staff_id w.db ≡ some staff
  pub staff_enabled : staff.is_enabled ≡ true
  pub current : claims.av ≡ some staff.auth_version
  pub principal : a ≡ build_principal staff

same_version-eq : (v : ℕ) (av : Option ℕ) → same_version v av ≡ true → av ≡ some v
same_version-eq v none h = absurd (cc)
same_version-eq v (some w) h = ground arith

not-eq-true : (b : Bool) → not b ≡ true → b ≡ false
not-eq-true true h = cc
not-eq-true false h = refl

any-none :
    (now jti : ℕ) (bs : List BlockedJti)
    → any (λ b. b.jti == jti && ltb now b.expires_at) bs ≡ false
    → All (λ b. some jti ≡ some b.jti → b.expires_at ≤ now) bs
any-none now jti [] h = tt
any-none now jti (b ∷ bs) h =
    (λ e. let same : jti ≡ b.jti = cc in ground arith, any-none now jti bs (ground arith))

All-vacuous :
    (now : ℕ) (bs : List BlockedJti) → All (λ b. none ≡ some b.jti → b.expires_at ≤ now) bs
All-vacuous now [] = tt
All-vacuous now (b ∷ bs) = (λ e. absurd (cc), All-vacuous now bs)

-- A token that is not blocked has no entry that has not expired.
unblocked-All :
    (now : ℕ) (r : Redis) (jti : Option ℕ)
    → r.up ≡ true
    → is_blocked now r jti ≡ false
    → All (λ b. jti ≡ some b.jti → b.expires_at ≤ now) r.blocked
unfolding is_blocked
unblocked-All now r none up h = All-vacuous now r.blocked
unblocked-All now r (some jti) up h = any-none now jti r.blocked (ground arith)

-- A token that is not stale was issued after the cutoff in force.
issued-after :
    (now : ℕ) (r : Redis) (staff_id : ℕ) (issued iat : Option ℕ)
    → r.up ≡ true
    → is_staff_token_stale now r staff_id issued iat ≡ false
    → (ms : ℕ) (cut : StaffCutoff) → issued ≡ some ms
    → 0 < ms
    → 0 < staff_id
    → find? (λ x. x.staff_id == staff_id && ltb now x.expires_at) r.cutoffs ≡ some cut
    → 1_000_000_000_000 ≤ cut.cutoff_ms
    → cut.cutoff_ms < ms
unfolding is_staff_token_stale
issued-after now r staff_id issued iat up h ms cut i l p f m =
    let k = rw (i, up, f) at h in ground arith

as_staff-injective : {a b : AuthStaff} → as_staff a ≡ as_staff b → a ≡ b
as_staff-injective h = cc

module _ (c : Crypto) (now : ℕ) (store_up : Bool) (w : World) (req : Request) (a : AuthStaff) where
  check_token-IsAdmitted :
      (token : ℕ)
      → token_of req ≡ some token
      → check_token c now store_up w token ≡ ok (as_staff a)
      → IsAdmitted c now w req a
  unfolding check_token
  check_token-IsAdmitted token presented e =
      let (claims, verified, e₁) = found-eq-ok (c.verify_access now token) _ _ e in
      let (unblocked, e₂) = require-eq-ok (not (is_blocked now w.redis claims.jti)) _ _ e₁ in
      let (fresh, e₃) =
        require-eq-ok
          (not (
            is_staff_token_stale now w.redis claims.principal.staff_id claims.issued_at_ms
              claims.iat))
          _ _ e₂ in
      let (up, e₄) = require-eq-ok store_up _ _ e₃ in
      let (s, owner, e₅) =
        found-eq-ok (enabled (staff_by_id claims.principal.staff_id w.db)) _ _ e₄ in
      let (current, e₆) = require-eq-ok (same_version s.auth_version claims.av) _ _ e₅ in
      let (stored, is_on) = enabled-eq-some _ s owner in
      record {
        token = token;
        presented = presented;
        claims = claims;
        verified = verified;
        unblocked = λ up. unblocked-All now w.redis claims.jti up (not-eq-true _ unblocked);
        fresh = λ up ms cut.
            issued-after now w.redis claims.principal.staff_id claims.issued_at_ms claims.iat up
              (not-eq-true _ fresh) ms cut;
        staff = s;
        stored = stored;
        staff_enabled = is_on;
        current = same_version-eq s.auth_version claims.av current;
        principal = sym (as_staff-injective (ok-injective e₆));
      }

  pub can_activate-IsAdmitted :
      can_activate c now store_up w req ≡ ok (as_staff a) → IsAdmitted c now w req a
  unfolding can_activate
  can_activate-IsAdmitted e = elim (Bool-cases req.is_public) [
    | inl p ↦ let clash : public_route ≡ as_staff a = ok-injective (rw p at e) in absurd (cc)
    | inr p ↦
        let (token, presented, checked) =
          found-eq-ok (token_of req) missing_access_token (check_token c now store_up w)
            (rw p at e) in
        check_token-IsAdmitted token presented checked
  ]
