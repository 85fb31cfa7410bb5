-- ===== src/Auth/Revocation.antt =====
-- After a logout-all, `revokeStaffSessions` of apps/api/src/auth/auth.service.ts, no older token
-- of the staff member refreshes or is admitted.
use kayaka_style_hd.Prelude.{
  ℕ, ◌+◌, ◌≤◌, ◌≡◌, refl, sym, ap, ◌∙◌, ◌≢◌, Bool, true, some, List, arith, ◌==◌, ==_iff, All,
  All-of, count_where, update_where, find?-sound, All-find?, count_where-update_where_out,
  find?-update_where, All-update_where,
}
use kayaka_style_hd.Auth.Store.{Staff, RefreshToken, PasswordReset, ok}
use kayaka_style_hd.Auth.Tokens.{AuthStaff, AccessClaims, Crypto, Random, World, staff_by_id}
use kayaka_style_hd.Auth.Refresh.{Prepared, prepare, revoke}
use kayaka_style_hd.Auth.Sessions.{
  is_live_of, is_pending_of, use_up, bump_version, revoke_staff_sessions,
}
use kayaka_style_hd.Auth.Guard.{Request, token_of, as_staff, can_activate}
use kayaka_style_hd.Auth.Reads.{prepare-IsPrepared}
use kayaka_style_hd.Auth.Admission.{can_activate-IsAdmitted}

pub revoked_of :
    (now id : ℕ) (rs : List RefreshToken)
    → count_where (is_live_of id) (update_where (is_live_of id) (revoke now) rs) ≡ 0
revoked_of now id rs = omega (
  arith,
  count_where-update_where_out (is_live_of id) (is_live_of id) (revoke now) rs
      (All-of (λ r. is_live_of id r ≡ true → is_live_of id r ≡ true) (λ x k. k) rs)
      (λ x k. ground arith),
)

pub burnt_of :
    (now id : ℕ) (rs : List PasswordReset)
    → count_where (is_pending_of id) (update_where (is_pending_of id) (use_up now) rs) ≡ 0
burnt_of now id rs = omega (
  arith,
  count_where-update_where_out (is_pending_of id) (is_pending_of id) (use_up now) rs
      (All-of (λ r. is_pending_of id r ≡ true → is_pending_of id r ≡ true) (λ x k. k) rs)
      (λ x k. ground arith),
)

-- The tokens of a staff member are stamped with versions that the member had by now.
abbrev pub StampedBy : Staff → List RefreshToken → Type 0
StampedBy s rs = All (λ r. r.staff_id ≡ s.id → r.auth_version ≤ s.auth_version) rs

some-injective {ℓ} : {A : Type ℓ} {a b : A} → some a ≡ some b → a ≡ b
some-injective h = cc

module _ (ttl now id : ℕ) (w w' : World) (s : Staff) (stored : staff_by_id id w.db ≡ some s)
    (done : revoke_staff_sessions ttl now id w ≡ some w') where
  revoked_staff : w'.db.staff ≡ update_where (λ u. u.id == id) bump_version w.db.staff
  unfolding revoke_staff_sessions
  revoked_staff = ground arith

  bumped : staff_by_id id w'.db ≡ some (bump_version s)
  bumped =
      let here : (s.id == id) ≡ true = find?-sound (λ u. u.id == id) w.db.staff s stored in
      rw revoked_staff (
        find?-update_where (λ u. u.id == id) (λ u. u.id == id) bump_version w.db.staff (λ x. refl)
        ∙ rw stored (rw here))

  revoked_tokens :
      w'.db.refresh_tokens
      ≡ update_where
          (is_live_of id)
          (revoke now)
          (update_where (is_live_of id) (revoke now) w.db.refresh_tokens)
  unfolding revoke_staff_sessions
  revoked_tokens = ground arith

  -- A logout-all that succeeds for a stored staff member leaves the member no live refresh token and no pending reset link, and raises
  -- the auth version by one.
  pub revoke_staff_sessions_lem :
      (count_where (is_live_of id) w'.db.refresh_tokens ≡ 0)
      × (count_where (is_pending_of id) w'.db.password_resets ≡ 0)
      × (staff_by_id id w'.db ≡ some (bump_version s))
  unfolding revoke_staff_sessions
  revoke_staff_sessions_lem = (
    rw revoked_tokens (revoked_of now id _),
    let e : w'.db.password_resets
            ≡ update_where (is_pending_of id) (use_up now) w.db.password_resets =
          ground arith in
        rw e (burnt_of now id w.db.password_resets),
    bumped,
  )

  -- No refresh request that reads the tables after a logout-all that succeeds is prepared for the member,
  -- where the tokens were stamped with versions up to the old one.
  pub refresh_after_logout :
      (c : Crypto) (rand : Random) (later raw : ℕ) (p : Prepared)
      → StampedBy s w.db.refresh_tokens
      → prepare c rand later w'.db raw ≡ ok p
      → p.row.staff_id ≢ id
  refresh_after_logout c rand later raw p stamped e same =
      let f = prepare-IsPrepared c rand later raw w'.db p e in
      let here : s.id ≡ id = (==_iff _ _).0 (find?-sound (λ u. u.id == id) w.db.staff s stored) in
      let owner : some p.staff ≡ some (bump_version s) = sym f.owner ∙ rw same bumped in
      let version : p.staff.auth_version ≡ s.auth_version + 1 = ground arith in
      let P = λ (r : RefreshToken). r.staff_id ≡ s.id → r.auth_version ≤ s.auth_version in
      let kept : StampedBy s w'.db.refresh_tokens = rw revoked_tokens (
        All-update_where P (is_live_of id) (revoke now) _ (λ x k h. h)
          (All-update_where P (is_live_of id) (revoke now) w.db.refresh_tokens (λ x k h. h)
            stamped)) in
      let old = All-find? P (λ r. r.jti == f.claims.jti) w'.db.refresh_tokens p.row kept f.stored in
      absurd (omega (arith, old (same ∙ sym here), version, f.current))

  -- After a logout-all that succeeds the guard admits no request whose access token is the staff member's and
  -- carries a version up to the old one.
  pub admission_after_logout :
      (c : Crypto) (later : ℕ) (store_up : Bool) (req : Request) (token v : ℕ)
      (claims : AccessClaims) (a : AuthStaff)
      → token_of req ≡ some token
      → c.verify_access later token ≡ some claims
      → claims.principal.staff_id ≡ id
      → claims.av ≡ some v
      → v ≤ s.auth_version
      → can_activate c later store_up w' req ≢ ok (as_staff a)
  admission_after_logout c later store_up req token v claims a presented verified mine av old e =
      let f = can_activate-IsAdmitted c later store_up w' req a e in
      let same_token : f.token ≡ token = some-injective (sym f.presented ∙ presented) in
      let same_claims : f.claims ≡ claims =
        some-injective (sym f.verified ∙ ap (c.verify_access later) same_token ∙ verified) in
      let owner : f.claims.principal.staff_id ≡ id =
        ap (λ x. x.principal.staff_id) same_claims ∙ mine in
      let same_staff : f.staff ≡ bump_version s =
        some-injective (sym f.stored ∙ ap (λ i. staff_by_id i w'.db) owner ∙ bumped) in
      let version : f.staff.auth_version ≡ s.auth_version + 1 =
        ap (λ x. x.auth_version) same_staff in
      let current : v ≡ f.staff.auth_version =
        some-injective (sym av ∙ ap (λ x. x.av) (sym same_claims) ∙ f.current) in
      omega arith
