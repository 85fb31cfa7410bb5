-- ===== src/Auth/Rotation.antt =====
-- One refresh token is rotated once, and a replay ends its family: `refresh` of
-- apps/api/src/auth/auth.service.ts.
use kayaka_style_hd.Prelude.{
  ℕ, ◌+◌, ◌≤◌, ◌<◌, ◌≡◌, refl, ◌∙◌, ◌≢◌, inl, inr, Bool, true, false, none, some, [], ◌∷◌, ◌++◌,
  arith, ◌==◌, ==_iff, Bool-cases, All, All-of, All-map, count_where, update_where, find?-sound,
  count_where-update_where_out, count_where_mono, count_where_none, find?-unique, update_where_none,
  count_where_pos, count_where-sole,
}
use kayaka_style_hd.Auth.Store.{RefreshToken, AuthDb, refresh_token_reuse, ok, err}
use kayaka_style_hd.Auth.Tokens.{Crypto, Random}
use kayaka_style_hd.Auth.Refresh.{
  Prepared, prepare, rotate, settle, within_grace, rotation_grace_ms, revoke, is_live_jti,
  is_live_family, refresh, rotated, not_rotated,
}
use kayaka_style_hd.Auth.OneActive.{has_jti, UniqueJti}
use kayaka_style_hd.Auth.Reads.{prepare-IsPrepared}

-- After a transaction for a jti no live row has it.
live_jti_after :
    (now : ℕ) (p : Prepared) (db : AuthDb)
    → p.successor.jti ≢ p.row.jti
    → count_where (is_live_jti p.row.jti) (rotate now p db).0.refresh_tokens ≡ 0
unfolding rotate
live_jti_after now p db h =
    let j = p.row.jti in
    let rs = db.refresh_tokens in
    let consumed = update_where (is_live_jti j) (revoke now) rs in
    let gone : count_where (is_live_jti j) consumed ≡ 0 = omega (
      arith,
      count_where-update_where_out (is_live_jti j) (is_live_jti j) (revoke now) rs
          (All-of (λ r. is_live_jti j r ≡ true → is_live_jti j r ≡ true) (λ x e. e) rs)
          (λ x e. ground arith),
    ) in
    elim (Bool-cases (count_where (is_live_jti j) rs == 1)) [
      | inl e ↦ rw (e, count_where-sole) (ground arith)
      | inr e ↦ rw e gone
    ]

-- Of two refresh requests that read the same token, whatever the tables, the later transaction
-- consumes no row and leaves the tables as it finds them, provided that the earlier one's successor
-- has another jti.
pub rotate_twice :
    (now later : ℕ) (p q : Prepared) (db : AuthDb)
    → q.row.jti ≡ p.row.jti
    → p.successor.jti ≢ p.row.jti
    → rotate later q (rotate now p db).0 ≡ ((rotate now p db).0, 0)
rotate_twice now later p q db same h =
    let db' = (rotate now p db).0 in
    let gone : count_where (is_live_jti q.row.jti) db'.refresh_tokens ≡ 0 =
      rw same (live_jti_after now p db h) in
    unfold rotate in
    rw (gone, update_where_none (is_live_jti q.row.jti) (revoke later) db'.refresh_tokens gone)

module _ (c : Crypto) (rand : Random) (now raw : ℕ) (db : AuthDb) (p : Prepared)
    (unique : UniqueJti db.refresh_tokens) (prepared : prepare c rand now db raw ≡ ok p) where
  -- All rows with the jti of the request are the row that it read.
  sole_row : All (λ r. has_jti p.row.jti r ≡ true → r ≡ p.row) db.refresh_tokens
  sole_row =
      let f = prepare-IsPrepared c rand now raw db p prepared in
      let test = has_jti f.claims.jti in
      let same : p.row.jti ≡ f.claims.jti =
        (==_iff _ _).0 (find?-sound test db.refresh_tokens p.row f.stored) in
      simp same (find?-unique test db.refresh_tokens p.row f.stored (unique f.claims.jti))

  none_live :
      (t : ℕ)
      → p.row.revoked_at ≡ some t
      → count_where (is_live_jti p.row.jti) db.refresh_tokens ≡ 0
  none_live t e = count_where_none (is_live_jti p.row.jti) db.refresh_tokens (
      All-map (λ r. has_jti p.row.jti r ≡ true → r ≡ p.row) (λ r. is_live_jti p.row.jti r ≡ false)
        (λ r k. dead r k (r.jti == p.row.jti) refl) db.refresh_tokens sole_row)
    where
      dead :
          (r : RefreshToken)
          → (has_jti p.row.jti r ≡ true → r ≡ p.row)
          → (b : Bool) → has_jti p.row.jti r ≡ b
          → is_live_jti p.row.jti r ≡ false
      dead r k true h = let same = k h in rw (same, e) (ground arith)
      dead r k false h = rw h

  one_live : p.row.revoked_at ≡ none → count_where (is_live_jti p.row.jti) db.refresh_tokens ≡ 1
  one_live e =
      let f = prepare-IsPrepared c rand now raw db p prepared in
      omega (
        arith,
        unique p.row.jti,
        count_where_mono (is_live_jti p.row.jti) (has_jti p.row.jti) db.refresh_tokens
            (λ x h. ground arith),
        count_where_pos (has_jti f.claims.jti) (is_live_jti p.row.jti) db.refresh_tokens p.row
            f.stored (ground arith),
      )

  -- Where jtis are unique and the request passes its reads: a refresh with a token that is not revoked
  -- succeeds with a new pair, and its row is revoked and the successor stored, in one step.
  pub refresh_live :
      p.row.revoked_at ≡ none
      → refresh c rand now db raw ≡ (
        record db {
          refresh_tokens =
              update_where (is_live_jti p.row.jti) (revoke now) db.refresh_tokens
              ++ p.successor ∷ [];
        },
        ok (rotated p.tokens.access_token p.tokens.refresh_token),
      )
  unfolding refresh
  refresh_live e = rw (prepared, one_live e)

  refresh_dead : (t : ℕ) → p.row.revoked_at ≡ some t → refresh c rand now db raw ≡ settle now p 0 db
  unfolding refresh
  refresh_dead t e =
      let gone = none_live t e in
      rw (
        prepared,
        gone,
        update_where_none (is_live_jti p.row.jti) (revoke now) db.refresh_tokens gone,
      )

  -- Where jtis are unique and the request passes its reads: within ten seconds of the rotation a second
  -- use of the token changes no table and gives an
  -- access token only.
  pub refresh_in_grace :
      (t : ℕ)
      → p.row.revoked_at ≡ some t
      → now ≤ t + rotation_grace_ms
      → refresh c rand now db raw ≡ (db, ok (not_rotated p.tokens.access_token))
  unfolding settle
  refresh_in_grace t e h =
      let soon : within_grace now p.row ≡ true = unfold within_grace in rw e (ground arith) in
      refresh_dead t e ∙ rw soon

  -- Where jtis are unique and the request passes its reads: a use of a token more than ten seconds
  -- after its rotation is an error and leaves no live token in the whole family.
  pub refresh_replay :
      (t : ℕ)
      → p.row.revoked_at ≡ some t
      → t + rotation_grace_ms < now
      → ((refresh c rand now db raw).1 ≡ err refresh_token_reuse)
        × (count_where (is_live_family p.row.family_id) (refresh c rand now db raw).0.refresh_tokens
            ≡ 0)
  unfolding settle
  refresh_replay t e h =
      let late : within_grace now p.row ≡ false = unfold within_grace in rw e (ground arith) in
      let f = is_live_family p.row.family_id in
      rw (refresh_dead t e) (
        rw late (
          refl,
          omega (
            arith,
            count_where-update_where_out f f (revoke now) db.refresh_tokens
                (All-of (λ r. f r ≡ true → f r ≡ true) (λ x k. k) db.refresh_tokens)
                (λ x k. ground arith),
          ),
        ))
