-- ===== src/Auth/OneActive.antt =====
-- Refresh families under every interleaving of the auth requests of apps/api/src/auth.
use kayaka_style_hd.Prelude.{
  ℕ, ◌≤◌, ◌≡◌, refl, Bool, true, List, arith, ◌==◌, All, All-map, count_where, update_where,
  count_where-update_where_same, count_where-update_where_le, All-update_where,
}
use kayaka_style_hd.Auth.Store.{RefreshToken, AuthDb}
use kayaka_style_hd.Auth.Tokens.{}
use kayaka_style_hd.Auth.Refresh.{Prepared, revoke, is_live_family}
use kayaka_style_hd.Auth.Sessions.{}

abbrev pub has_jti : ℕ → RefreshToken → Bool
has_jti j r = r.jti == j

abbrev pub in_family : ℕ → RefreshToken → Bool
in_family f r = r.family_id == f

-- Every family has at most one token that is not revoked.
abbrev pub OneActive : List RefreshToken → Type 0
OneActive rs = (f : ℕ) → count_where (is_live_family f) rs ≤ 1

-- The unique index on the jti.
abbrev pub UniqueJti : List RefreshToken → Type 0
UniqueJti rs = (j : ℕ) → count_where (has_jti j) rs ≤ 1

-- The stored rows agree with what a request has read of its row.
abbrev pub Agrees : List RefreshToken → Prepared → Type 0
Agrees rs p = All (λ r. has_jti p.row.jti r ≡ true → r.family_id ≡ p.row.family_id) rs

abbrev pub KeepsFamily : Prepared → Type 0
KeepsFamily p = p.successor.family_id ≡ p.row.family_id

-- The tables, and the refresh requests between their reads and their transactions.
pub record System : Type 0 where
  pub db : AuthDb
  pub in_flight : List Prepared

pub record IsValid (s : System) : Type 0 where
  pub one_active : OneActive s.db.refresh_tokens
  pub unique_jti : UniqueJti s.db.refresh_tokens
  pub agrees : All (Agrees s.db.refresh_tokens) s.in_flight
  pub keeps_family : All KeepsFamily s.in_flight

-- An update that revokes rows, and leaves their jti and family.
module _ (p : RefreshToken → Bool) (now : ℕ) (rs : List RefreshToken) where
  abbrev pub revoked : List RefreshToken
  revoked = update_where p (revoke now) rs

  pub revoked-OneActive : OneActive rs → OneActive revoked
  revoked-OneActive h f = omega (
    arith,
    h f,
    count_where-update_where_le (is_live_family f) p (revoke now) rs (λ x _ e. ground arith),
  )

  pub revoked-UniqueJti : UniqueJti rs → UniqueJti revoked
  revoked-UniqueJti h j =
      omega (arith, h j, count_where-update_where_same (has_jti j) p (revoke now) rs (λ x _. refl))

  pub revoked-Agrees : (q : Prepared) → Agrees rs q → Agrees revoked q
  revoked-Agrees q h =
      All-update_where (λ r. has_jti q.row.jti r ≡ true → r.family_id ≡ q.row.family_id) p
        (revoke now) rs (λ x _ k. k) h

  pub revoked-IsValid :
      (s : System) (db : AuthDb)
      → IsValid s
      → s.db.refresh_tokens ≡ rs
      → db.refresh_tokens ≡ revoked
      → IsValid (record s { db = db })
  revoked-IsValid s db v e k = record {
    one_active = rw k (revoked-OneActive (rw e at v.one_active));
    unique_jti = rw k (revoked-UniqueJti (rw e at v.unique_jti));
    agrees =
        rw k (All-map (Agrees rs) (Agrees revoked) revoked-Agrees s.in_flight (rw e at v.agrees));
    keeps_family = v.keeps_family;
  }
