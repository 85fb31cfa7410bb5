-- ===== src/Auth/Successor.antt =====
-- What storing the successor of a refresh token keeps of the refresh families.
use mathlib.Core.List.{Memᴰ}
use kayaka_style_hd.Prelude.{
  ℕ, ◌≡◌, refl, sym, subst, inl, inr, Bool, true, false, List, [], ◌∷◌, ◌++◌, arith, ◌==◌,
  Bool-cases, All, All-append, All-map, count_where, count_where-update_where_same,
  count_where-update_where_out, count_where-sole,
}
use kayaka_style_hd.Auth.Store.{RefreshToken}
use kayaka_style_hd.Auth.Tokens.{}
use kayaka_style_hd.Auth.Refresh.{Prepared, revoke, is_live_jti, is_live_family}
use kayaka_style_hd.Auth.Sessions.{}
use kayaka_style_hd.Auth.OneActive.{has_jti, OneActive, UniqueJti, Agrees, revoked}

pub mem-All :
    (P : Prepared → Type 0) (p : Prepared) (ps : List Prepared) → Memᴰ p ps → All P ps → P p
mem-All P p [] m h = elim m [ ]
mem-All P p (q ∷ qs) (Memᴰ.head e) h = subst P (sym e) h.0
mem-All P p (q ∷ qs) (Memᴰ.tail m) h = mem-All P p qs m h.1

-- A new row with a fresh jti.
module _ (row : RefreshToken) (rs : List RefreshToken) where
  pub added-UniqueJti :
      UniqueJti rs → count_where (has_jti row.jti) rs ≡ 0 → UniqueJti (rs ++ row ∷ [])
  added-UniqueJti h fresh j = elim (Bool-cases (row.jti == j)) [
    | inl e ↦
        let same : row.jti ≡ j = ground arith in
        rw (count_where-sole, e) (omega (arith, (rw same at fresh)))
    | inr e ↦ rw (count_where-sole, e) (omega (arith, h j))
  ]

  pub added-Agrees :
      (q : Prepared) → Agrees rs q → (row.jti == q.row.jti) ≡ false → Agrees (rs ++ row ∷ []) q
  added-Agrees q h fresh =
      All-append (λ r. has_jti q.row.jti r ≡ true → r.family_id ≡ q.row.family_id) rs (row ∷ []) h
        (λ e. absurd (cc), tt)

  pub added-Agrees-All :
      (ps : List Prepared)
      → All (Agrees rs) ps
      → All (λ q. (row.jti == q.row.jti) ≡ false) ps
      → All (Agrees (rs ++ row ∷ [])) ps
  added-Agrees-All [] h k = tt
  added-Agrees-All (q ∷ qs) h k = (added-Agrees q h.0 k.0, added-Agrees-All qs h.1 k.1)

  pub added-OneActive :
      OneActive rs → count_where (is_live_family row.family_id) rs ≡ 0 → OneActive (rs ++ row ∷ [])
  added-OneActive h none_live f = elim (Bool-cases (row.family_id == f)) [
    | inl e ↦
        let same : row.family_id ≡ f = ground arith in
        let zero_live = rw same at none_live in rw count_where-sole (ground (arith, zero_live))
    | inr e ↦ rw count_where-sole (ground (arith, h f))
  ]

-- What the consumed parent leaves of its family.
pub live_after_rotate :
    (now : ℕ) (p : Prepared) (rs : List RefreshToken)
    → OneActive rs
    → Agrees rs p
    → count_where (is_live_jti p.row.jti) rs ≡ 1
    → count_where (is_live_family p.row.family_id) (revoked (is_live_jti p.row.jti) now rs) ≡ 0
live_after_rotate now p rs h a one = omega (
  arith,
  h p.row.family_id,
  count_where-update_where_out (is_live_family p.row.family_id) (is_live_jti p.row.jti) (revoke now)
      rs
      (All-map (λ r. has_jti p.row.jti r ≡ true → r.family_id ≡ p.row.family_id)
        (λ r. is_live_jti p.row.jti r ≡ true → is_live_family p.row.family_id r ≡ true)
        (λ r k e. ground (arith, k)) rs a)
      (λ r e. ground arith),
)

pub count_jti_revoked :
    (q : RefreshToken → Bool) (now j : ℕ) (rs : List RefreshToken)
    → count_where (has_jti j) (revoked q now rs) ≡ count_where (has_jti j) rs
count_jti_revoked q now j rs =
    count_where-update_where_same (has_jti j) q (revoke now) rs (λ x _. refl)
