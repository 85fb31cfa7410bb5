-- ===== src/Auth/UsedOnce.antt =====
-- A password-reset link works once: `resetPassword` of apps/api/src/auth/auth.service.ts, whatever
-- other requests write in between.
use kayaka_style_hd.Prelude.{
  ok, err, ℕ, ◌≤◌, ◌<◌, ◌≡◌, refl, sym, subst, inl, inr, Bool, true, ◌&&◌, Option, none, some, List,
  [], ◌∷◌, arith, ◌==◌, Bool-cases, Option-cases, is_some, All, count_where, update_where,
  find?-sound, All-find?, count_where_mono, find?-unique,
}
use kayaka_style_hd.Auth.Store.{Staff, PasswordReset, AuthDb, invalid_reset_token, ok, err}
use kayaka_style_hd.Auth.Throttle.{Redis}
use kayaka_style_hd.Auth.Tokens.{Crypto, World, staff_by_id}
use kayaka_style_hd.Auth.Sessions.{is_pending_of, use_up, revoke_all_for_staff, revoke_refresh_of}
use kayaka_style_hd.Auth.Reset.{
  is_usable, reset_by_hash, usable_by_hash, is_stamped, new_password, reset_transaction,
  finish_reset, after_check, reset_password,
}
use kayaka_style_hd.Auth.ResetOnce.{
  apply_found-inversion, apply_reset-stamped, apply_reset-staff, apply_reset-resets, usable-eq-some,
  usable_of_spent,
}
use kayaka_style_hd.Auth.UsedLinks.{
  Later, stay, burn, Later-IsSpent, IsOutdated, SpentRow, IsSpent, All-updated, used_up,
}

-- Where two tests hold equally often and one implies the other, they are the same.
count_where-same :
    {A : Type 0} (p q : A → Bool) (xs : List A)
    → ((x : A) → q x ≡ true → p x ≡ true)
    → count_where p xs ≤ count_where q xs
    → All (λ x. p x ≡ true → q x ≡ true) xs
unfolding count_where
count_where-same p q [] h k = tt
count_where-same p q (x ∷ xs) h k =
    let mono = count_where_mono q p xs h in
    let rest = count_where-same p q xs h in
    elim (Bool-cases (q x)) [
      | inl t ↦ let y = h x t in (λ e. t, rest (let m = rw (t, y) at k in omega (arith, m)))
      | inr t ↦ elim (Bool-cases (p x)) [
        | inl u ↦ absurd (let m = rw (t, u) at k in omega (arith, m, mono))
        | inr u ↦ (λ e. absurd (cc), rest (let m = rw (t, u) at k in omega (arith, m)))
      ]
    ]

-- The reset has outdated the link.
reset-IsOutdated :
    (r : PasswordReset) (password_hash : ℕ) (ss : List Staff)
    → count_where (λ s. s.id == r.staff_id) ss ≤ 1
    → count_where (is_stamped r) ss ≡ 1
    → IsOutdated r (update_where (is_stamped r) (new_password password_hash) ss)
reset-IsOutdated r password_hash ss sole one =
    All-updated (λ s. (s.id == r.staff_id) ≡ true → is_stamped r s ≡ true)
      (λ s. s.id ≡ r.staff_id → r.auth_version < s.auth_version) (is_stamped r)
      (new_password password_hash) ss (λ s t k e. ground arith)
      (λ s t k e. let y = k (ground arith) in absurd (cc))
      (count_where-same (λ s. s.id == r.staff_id) (is_stamped r) ss (λ s t. ground arith)
        (omega (arith, sole, one)))

-- A commit leaves its link spent, where no other link has the digest.
committed-IsSpent :
    (now h password_hash id : ℕ) (candidate : PasswordReset) (db b : AuthDb)
    → count_where (λ x. x.token_hash == h) db.password_resets ≤ 1
    → ((i : ℕ) → count_where (λ s. s.id == i) db.staff ≤ 1)
    → reset_transaction now h password_hash candidate db ≡ some (id, b)
    → IsSpent h b
unfolding reset_transaction
committed-IsSpent now h password_hash id candidate db b sole unique done =
    let (r, usable, mine, applied) =
      apply_found-inversion now password_hash id db b (is_some (staff_by_id candidate.staff_id db))
        (usable_by_hash now h db) done in
    let (there, fit) = usable-eq-some now h db r usable in
    let after = update_where (is_stamped r) (new_password password_hash) db.staff in
    let outdated =
      reset-IsOutdated r password_hash db.staff (unique r.staff_id)
        (apply_reset-stamped now password_hash r db b applied) in
    let only = find?-unique (λ x. x.token_hash == h) db.password_resets r there sole in
    rw
      (
        apply_reset-staff now password_hash r db b applied,
        apply_reset-resets now password_hash r db b applied,
      )
      (used_up h now after (is_pending_of r.staff_id)
        (update_where (λ x. x.id == r.id && is_usable now x) (use_up now) db.password_resets)
        (All-updated (λ x. (x.token_hash == h) ≡ true → x ≡ r) (SpentRow h after)
          (λ x. x.id == r.id && is_usable now x) (use_up now) db.password_resets
          (λ x t k e. (refl, subst (λ y. IsOutdated y after) (sym (k (ground arith))) outdated))
          (λ x t k e.
            let same = k (ground arith) in
            let yes_here : (x.id == r.id && is_usable now x) ≡ true =
              subst (λ y. (y.id == r.id && is_usable now y) ≡ true) (sym same) (ground arith) in
            absurd (cc))
          only))

-- What a use that succeeds has done.
reset_password-commits :
    (c : Crypto) (salt now : ℕ) (w : World) (token password : ℕ)
    → (reset_password c salt now w token password).1 ≡ ok tt
    → (candidate : PasswordReset) × (id : ℕ) × (b : AuthDb) × (reset_transaction now
          (c.sha256 token)
          (c.hash_password salt password)
          candidate
          w.db
        ≡ some (id, b))
      × ((reset_password c salt now w token password).0
          ≡ revoke_all_for_staff c.access_ttl now id (record w { db = b }))
unfolding reset_password
reset_password-commits c salt now w token password = go (usable_by_hash now (c.sha256 token) w.db)
  where
    h : ℕ
    h = c.sha256 token

    p : ℕ
    p = c.hash_password salt password

    finish :
        (candidate : PasswordReset) (o : Option (ℕ × AuthDb))
        → reset_transaction now h p candidate w.db ≡ o
        → (finish_reset c now w o).1 ≡ ok tt
        → (candidate : PasswordReset) × (id : ℕ) × (b : AuthDb) × (reset_transaction now h p
              candidate w.db
            ≡ some (id, b))
          × ((finish_reset c now w o).0
              ≡ revoke_all_for_staff c.access_ttl now id (record w { db = b }))
    finish candidate none e f = absurd (cc)
    finish candidate (some (id, b)) e f = (candidate, id, b, e, refl)

    go :
        (o : Option PasswordReset)
        → (after_check c now h p w o).1 ≡ ok tt
        → (candidate : PasswordReset) × (id : ℕ) × (b : AuthDb) × (reset_transaction now h p
              candidate w.db
            ≡ some (id, b))
          × ((after_check c now h p w o).0
              ≡ revoke_all_for_staff c.access_ttl now id (record w { db = b }))
    go none f = absurd (cc)
    go (some r) f = finish r (reset_transaction now h p r w.db) refl f

spent-unusable : (now h : ℕ) (db : AuthDb) → IsSpent h db → usable_by_hash now h db ≡ none
spent-unusable now h db k = elim (Option-cases (reset_by_hash h db)) [
  | inl n ↦ rw (usable_by_hash, n) refl
  | inr m ↦
      let hit : (m.0.token_hash == h) ≡ true =
        find?-sound (λ x. x.token_hash == h) db.password_resets m.0 m.1 in
      let row =
        All-find? (SpentRow h db.staff) (λ x. x.token_hash == h) db.password_resets m.0 k m.1 in
      usable_of_spent now h db m.0 m.1 (row (ground arith)).0
]

revoked_tokens-IsSpent :
    (h now id : ℕ) (b : AuthDb) → IsSpent h b → IsSpent h (revoke_refresh_of now id b)
unfolding revoke_refresh_of
revoked_tokens-IsSpent h now id b k = k

-- A link whose use succeeded is refused ever after, whatever the password and the time, and the refused
-- request changes nothing: whatever links other requests issue, activate, use, burn and clean up in
-- between, and however they change refresh tokens, Redis and staff members, as long as no new link has
-- its digest, no member's id changes and no auth version goes down. Ids of members and digests of links
-- are taken to be unique at its use.
pub reset_password_once :
    (c : Crypto) (salt salt' now later : ℕ) (w : World) (token password password' : ℕ) (db : AuthDb)
    (redis : Redis)
    → count_where (λ x. x.token_hash == c.sha256 token) w.db.password_resets ≤ 1
    → ((i : ℕ) → count_where (λ s. s.id == i) w.db.staff ≤ 1)
    → (reset_password c salt now w token password).1 ≡ ok tt
    → Later c (c.sha256 token) (reset_password c salt now w token password).0.db db
    → reset_password c salt' later (record { db = db; redis = redis }) token password'
      ≡ (record { db = db; redis = redis }, err invalid_reset_token)
unfolding reset_password revoke_all_for_staff
reset_password_once c salt salt' now later w token password password' db redis sole unique done l =
    let h = c.sha256 token in
    let (candidate, id, b, commit, end) = reset_password-commits c salt now w token password done in
    let spent =
      committed-IsSpent now h (c.hash_password salt password) id candidate w.db b sole unique
        commit in
    let here : IsSpent h (reset_password c salt now w token password).0.db =
      subst (λ v. IsSpent h v.db) (sym end)
        (Later-IsSpent c h (burn now id (stay (revoke_refresh_of now id b)))
          (revoked_tokens-IsSpent h now id b spent)) in
    rw (spent-unusable later h db (Later-IsSpent c h l here)) refl
