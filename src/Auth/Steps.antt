-- ===== src/Auth/Steps.antt =====
-- What the steps of the auth requests on the refresh tokens keep of the invariant of the families.
use mathlib.Core.List.{Memᴰ}
use Prim.Native.String.{String}
use kayaka_style_hd.Prelude.{
  ℕ, ◌≡◌, refl, ap, ◌∙◌, inl, inr, Bool, true, false, ◌&&◌, Option, List, [], ◌∷◌, ◌++◌, arith, ltb,
  ◌==◌, ==_iff, Bool-cases, All, All-map, count_where, update_where, drop_where, find?-sound,
  count_where-drop_where_le, count_where_mono, find?-unique, All-drop_where,
}
use kayaka_style_hd.Auth.Store.{RefreshToken, AuthDb, Staff, Result, ok, err}
use kayaka_style_hd.Auth.Throttle.{Redis, assert_not_throttled}
use kayaka_style_hd.Auth.Tokens.{
  Crypto, Random, World, login, throttled, validate_staff, login_checked,
}
use kayaka_style_hd.Auth.Refresh.{
  Prepared, prepare, rotate, settle, within_grace, cleanup_expired, revoke, is_live_jti,
  is_live_family,
}
use kayaka_style_hd.Auth.Sessions.{}
use kayaka_style_hd.Auth.OneActive.{
  has_jti, in_family, OneActive, UniqueJti, Agrees, KeepsFamily, System, IsValid, revoked,
  revoked-OneActive, revoked-UniqueJti, revoked-Agrees, revoked-IsValid,
}
use kayaka_style_hd.Auth.Reads.{prepare-IsPrepared}
use kayaka_style_hd.Auth.Interleaving.{IsFresh, IsNewFamily, with_db}
use kayaka_style_hd.Auth.Successor.{
  mem-All, added-UniqueJti, added-Agrees-All, added-OneActive, live_after_rotate, count_jti_revoked,
}

module _ (s : System) (v : IsValid s) where
  -- A table with a row whose family has no other active token.
  pub added-IsValid :
      (row : RefreshToken) (rs : List RefreshToken) (db : AuthDb)
      → OneActive rs
      → UniqueJti rs
      → All (Agrees rs) s.in_flight
      → count_where (is_live_family row.family_id) rs ≡ 0
      → count_where (has_jti row.jti) rs ≡ 0
      → All (λ q. (row.jti == q.row.jti) ≡ false) s.in_flight
      → db.refresh_tokens ≡ rs ++ row ∷ []
      → IsValid (with_db s db)
  added-IsValid row rs db one unique agrees no_live unstored unheld e = record {
    one_active = rw e (added-OneActive row rs one no_live);
    unique_jti = rw e (added-UniqueJti row rs unique unstored);
    agrees = rw e (added-Agrees-All row rs s.in_flight agrees unheld);
    keeps_family = v.keeps_family;
  }

  pub same-IsValid :
      (db : AuthDb) → db.refresh_tokens ≡ s.db.refresh_tokens → IsValid (with_db s db)
  same-IsValid db e = record {
    one_active = rw e v.one_active;
    unique_jti = rw e v.unique_jti;
    agrees = rw e v.agrees;
    keeps_family = v.keeps_family;
  }

  pub revoke-IsValid :
      (q : RefreshToken → Bool) (now : ℕ) (db : AuthDb)
      → db.refresh_tokens ≡ update_where q (revoke now) s.db.refresh_tokens
      → IsValid (with_db s db)
  revoke-IsValid q now db e = revoked-IsValid q now s.db.refresh_tokens s db v refl e

  pub commit_consumed :
      (now : ℕ) (p : Prepared)
      → Memᴰ p s.in_flight
      → IsFresh p.successor.jti s
      → count_where (is_live_jti p.row.jti) s.db.refresh_tokens ≡ 1
      → (db : AuthDb)
      → db.refresh_tokens
        ≡ update_where (is_live_jti p.row.jti) (revoke now) s.db.refresh_tokens ++ p.successor ∷ []
      → IsValid (with_db s db)
  commit_consumed now p m fresh one db e =
      let rs = s.db.refresh_tokens in
      let q = is_live_jti p.row.jti in
      let agrees = mem-All (Agrees rs) p s.in_flight m v.agrees in
      let family : p.successor.family_id ≡ p.row.family_id =
        mem-All KeepsFamily p s.in_flight m v.keeps_family in
      added-IsValid p.successor (revoked q now rs) db (revoked-OneActive q now rs v.one_active)
        (revoked-UniqueJti q now rs v.unique_jti)
        (All-map (Agrees rs) (Agrees (revoked q now rs)) (revoked-Agrees q now rs) s.in_flight
          v.agrees)
        (rw family (live_after_rotate now p rs v.one_active agrees one))
        (count_jti_revoked q now p.successor.jti rs ∙ fresh.unstored) fresh.unheld e

  pub rotate-IsValid :
      (now : ℕ) (p : Prepared)
      → Memᴰ p s.in_flight
      → IsFresh p.successor.jti s
      → IsValid (with_db s (rotate now p s.db).0)
  unfolding rotate
  rotate-IsValid now p m fresh =
      elim (Bool-cases (count_where (is_live_jti p.row.jti) s.db.refresh_tokens == 1)) [
        | inl e ↦ commit_consumed now p m fresh (ground arith) _ (rw e)
        | inr e ↦ rw e (revoke-IsValid (is_live_jti p.row.jti) now _ refl)
      ]

  pub settle-IsValid : (now n : ℕ) (p : Prepared) → IsValid (with_db s (settle now p n s.db).0)
  unfolding settle
  settle-IsValid now n p = elim (Bool-cases (n == 1)) [
    | inl e ↦ rw e v
    | inr e ↦ elim (Bool-cases (within_grace now p.row)) [
      | inl g ↦ rw (e, g) v
      | inr g ↦ rw (e, g) (revoke-IsValid (is_live_family p.row.family_id) now _ refl)
    ]
  ]

  pub login-IsValid :
      (c : Crypto) (rand : Random) (now : ℕ) (redis : Redis) (email : String) (password : ℕ)
      (ip : Option String)
      → IsFresh rand.refresh_jti s
      → IsNewFamily rand.family_id s
      → let w : World = record { db = s.db; redis = redis } in
        IsValid (with_db s (login c rand now w email password ip).0.db)
  unfolding login
  login-IsValid c rand now redis email password ip fresh new_family =
      let no_live : count_where (is_live_family rand.family_id) s.db.refresh_tokens ≡ 0 = omega (
        arith,
        new_family,
        count_where_mono (is_live_family rand.family_id) (in_family rand.family_id)
            s.db.refresh_tokens (λ x e. ground arith),
      ) in
      go (assert_not_throttled c.hmac now redis email ip) (validate_staff c s.db email password)
        no_live
    where
      w : World
      w = record { db = s.db; redis = redis }

      go :
          (t : Result (Unit {0})) (r : Result Staff)
          → count_where (is_live_family rand.family_id) s.db.refresh_tokens ≡ 0
          → IsValid (with_db s (throttled w t (login_checked c rand now w email ip r)).0.db)
      go (err e) r h = v
      go (ok u) (err e) h = v
      go (ok u) (ok staff) h =
          added-IsValid _ s.db.refresh_tokens _ v.one_active v.unique_jti v.agrees h fresh.unstored
            fresh.unheld refl

  pub prepare-IsValid :
      (c : Crypto) (rand : Random) (now raw : ℕ) (p : Prepared)
      → prepare c rand now s.db raw ≡ ok p
      → IsValid (record s { in_flight = p ∷ s.in_flight })
  prepare-IsValid c rand now raw p e =
      let f = prepare-IsPrepared c rand now raw s.db p e in
      let test = has_jti f.claims.jti in
      let sole = find?-unique test s.db.refresh_tokens p.row f.stored (v.unique_jti f.claims.jti) in
      let same : p.row.jti ≡ f.claims.jti =
        (==_iff _ _).0 (find?-sound test s.db.refresh_tokens p.row f.stored) in
      record {
        one_active = v.one_active;
        unique_jti = v.unique_jti;
        agrees = (
          All-map (λ r. test r ≡ true → r ≡ p.row)
              (λ r. has_jti p.row.jti r ≡ true → r.family_id ≡ p.row.family_id)
              (λ r k h. ap (λ t. t.family_id) (k (rw same at h))) s.db.refresh_tokens sole,
          v.agrees,
        );
        keeps_family = (f.same_family, v.keeps_family);
      }

  pub clean_up-IsValid : (now id : ℕ) → IsValid (with_db s (cleanup_expired now id s.db))
  unfolding cleanup_expired
  clean_up-IsValid now id =
      let test = λ (r : RefreshToken). r.staff_id == id && ltb r.expires_at now in
      let rs = s.db.refresh_tokens in
      record {
        one_active = λ f.
            omega (arith, v.one_active f, count_where-drop_where_le (is_live_family f) test rs);
        unique_jti =
            λ j. omega (arith, v.unique_jti j, count_where-drop_where_le (has_jti j) test rs);
        agrees =
            All-map (Agrees rs) (Agrees (drop_where test rs))
              (λ q.
                All-drop_where (λ r. has_jti q.row.jti r ≡ true → r.family_id ≡ q.row.family_id)
                  test rs)
              s.in_flight v.agrees;
        keeps_family = v.keeps_family;
      }

-- Two updates that revoke.
pub revoke_twice-IsValid :
    (s : System) (q r : RefreshToken → Bool) (now later : ℕ) (db : AuthDb)
    → IsValid s
    → db.refresh_tokens
      ≡ update_where q (revoke later) (update_where r (revoke now) s.db.refresh_tokens)
    → IsValid (with_db s db)
revoke_twice-IsValid s q r now later db v e =
    let mid = record (s.db) { refresh_tokens = update_where r (revoke now) s.db.refresh_tokens } in
    revoke-IsValid (with_db s mid) (revoke-IsValid s v r now mid refl) q later db e
