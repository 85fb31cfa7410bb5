-- ===== src/Auth/UsedLinks.antt =====
-- A password-reset link that was used stays used: `resetPassword` of apps/api/src/auth/auth.service.ts
-- among the writes of all other requests.
use kayaka_style_hd.Prelude.{
  ℕ, ◌≤◌, ◌<◌, ◌≡◌, refl, sym, ◌∙◌, inl, inr, Bool, true, false, not, ◌&&◌, ◌||◌, Option, none,
  some, List, [], ◌∷◌, arith, ltb, ◌==◌, Bool-cases, is_none, is_some, All, All-append, All-map,
  find?, update_where, find?-sound, All-find?, All-update_where, All-drop_where,
}
use kayaka_style_hd.Auth.Store.{Staff, RefreshToken, PasswordReset, AuthDb}
use kayaka_style_hd.Auth.Tokens.{Crypto, staff_by_id, enabled}
use kayaka_style_hd.Auth.Sessions.{is_pending_of, use_up, burn_resets_of}
use kayaka_style_hd.Auth.Reset.{
  new_reset, create_reset, cleanup_resets, is_newer_active, can_activate, make_active, version_is,
  activate_delivered_reset, is_usable, usable_by_hash, is_stamped, new_password, reset_transaction,
}
use kayaka_style_hd.Auth.Reads.{enabled-eq-some}
use kayaka_style_hd.Auth.ResetOnce.{apply_found-inversion, apply_reset-staff, apply_reset-resets}

-- The writes of other requests on the tables, in any order, from one state of them to another. A new
-- link has another digest; a change of a staff member keeps the id and never lowers the version.
module _ (c : Crypto) (h : ℕ) where
  pub data Later : AuthDb → AuthDb → Type 0 where
    stay : (db : AuthDb) → Later db db
    issue :
        {db a : AuthDb} (time raw : ℕ) (s : Staff)
        → (c.sha256 raw == h) ≡ false
        → Later db a
        → Later db (create_reset c time raw s a)
    activate :
        {db a : AuthDb} (time id staff version : ℕ)
        → Later db a
        → Later db (activate_delivered_reset time id staff version a).0
    clean : {db a : AuthDb} (time : ℕ) → Later db a → Later db (cleanup_resets time a)
    use_link :
        {db a : AuthDb} (time hash password_hash id : ℕ) (candidate : PasswordReset) (b : AuthDb)
        → reset_transaction time hash password_hash candidate a ≡ some (id, b)
        → Later db a
        → Later db b
    burn : {db a : AuthDb} (time id : ℕ) → Later db a → Later db (burn_resets_of time id a)
    change_tokens :
        {db a : AuthDb} (ts : List RefreshToken)
        → Later db a
        → Later db (record a { refresh_tokens = ts })
    change_staff :
        {db a : AuthDb} (p : Staff → Bool) (f : Staff → Staff)
        → ((s : Staff) → (f s).id ≡ s.id)
        → ((s : Staff) → s.auth_version ≤ (f s).auth_version)
        → Later db a
        → Later db (record a { staff = update_where p f a.staff })

-- The staff member of a link has a later version than the link.
abbrev pub IsOutdated : PasswordReset → List Staff → Type 0
IsOutdated x = All (λ s. s.id ≡ x.staff_id → x.auth_version < s.auth_version)

-- A link with the digest is used, and can never be activated again.
abbrev pub SpentRow : ℕ → List Staff → PasswordReset → Type 0
SpentRow h ss x = x.token_hash ≡ h → (is_none x.used_at ≡ false) × IsOutdated x ss

abbrev pub IsSpent : ℕ → AuthDb → Type 0
IsSpent h db = All (SpentRow h db.staff) db.password_resets

pub All-updated :
    {A : Type 0} (P Q : A → Type 0) (p : A → Bool) (f : A → A) (xs : List A)
    → ((x : A) → p x ≡ true → P x → Q (f x))
    → ((x : A) → p x ≡ false → P x → Q x)
    → All P xs
    → All Q (update_where p f xs)
unfolding update_where
All-updated P Q p f [] h k a = tt
All-updated P Q p f (x ∷ xs) h k a = elim (Bool-cases (p x)) [
  | inl e ↦ rw e (h x e a.0, All-updated P Q p f xs h k a.1)
  | inr e ↦ rw e (k x e a.0, All-updated P Q p f xs h k a.1)
]

pub used_up :
    (h now : ℕ) (ss : List Staff) (p : PasswordReset → Bool) (rs : List PasswordReset)
    → All (SpentRow h ss) rs
    → All (SpentRow h ss) (update_where p (use_up now) rs)
used_up h now ss p rs =
    All-update_where (SpentRow h ss) p (use_up now) rs (λ x t k e. (refl, (k e).1))

staff_changed :
    (h : ℕ) (p : Staff → Bool) (f : Staff → Staff) (ss : List Staff) (rs : List PasswordReset)
    → ((s : Staff) → (f s).id ≡ s.id)
    → ((s : Staff) → s.auth_version ≤ (f s).auth_version)
    → All (SpentRow h ss) rs
    → All (SpentRow h (update_where p f ss)) rs
staff_changed h p f ss rs same up =
    All-map (SpentRow h ss) (SpentRow h (update_where p f ss))
      (λ x k e. (
        (k e).0,
        All-update_where (λ s. s.id ≡ x.staff_id → x.auth_version < s.auth_version) p f ss
            (λ s t older i. let less = older (sym (same s) ∙ i) in omega (arith, up s, less))
            (k e).1,
      ))
      rs

version_is-eq :
    (v : ℕ) (o : Option Staff)
    → version_is v o ≡ true
    → (s : Staff) × (o ≡ some s) × (s.auth_version ≡ v)
version_is-eq v none h = absurd (cc)
version_is-eq v (some s) h = (s, refl, ground arith)

-- An activation passes over the links with the digest.
not_activated :
    (h now id staff version : ℕ) (db : AuthDb) (x : PasswordReset)
    → version_is version (enabled (staff_by_id staff db)) ≡ true
    → can_activate now id staff version x ≡ true
    → SpentRow h db.staff x
    → SpentRow h db.staff (make_active x)
not_activated h now id staff version db x current fits k e =
    let (s, there, same) = version_is-eq version (enabled (staff_by_id staff db)) current in
    let (stored, on) = enabled-eq-some (staff_by_id staff db) s there in
    let mine : (s.id == staff) ≡ true = find?-sound (λ s. s.id == staff) db.staff s stored in
    let older =
      All-find? (λ s. s.id ≡ x.staff_id → x.auth_version < s.auth_version) (λ s. s.id == staff)
        db.staff s (k e).1 stored in
    let owner : s.id ≡ x.staff_id = ground arith in
    let less = older owner in
    let stamp : x.auth_version ≡ version = ground arith in absurd (omega arith)

activated :
    (h now id staff version : ℕ) (db : AuthDb)
    → IsSpent h db
    → IsSpent h (activate_delivered_reset now id staff version db).0
unfolding activate_delivered_reset burn_resets_of
activated h now id staff version db k =
    elim (Bool-cases (
      not (version_is version (enabled (staff_by_id staff db)))
      || is_some (find? (is_newer_active now id staff) db.password_resets))) [
        | inl t ↦ rw t k
        | inr t ↦ rw t (
            All-update_where (SpentRow h db.staff) (can_activate now id staff version) make_active
              (update_where (is_pending_of staff) (use_up now) db.password_resets)
              (λ x f. not_activated h now id staff version db x (ground arith) f)
              (used_up h now db.staff (is_pending_of staff) db.password_resets k))
      ]

link_used :
    (h now hash password_hash id : ℕ) (candidate : PasswordReset) (db b : AuthDb)
    → reset_transaction now hash password_hash candidate db ≡ some (id, b)
    → IsSpent h db
    → IsSpent h b
unfolding reset_transaction
link_used h now hash password_hash id candidate db b done k =
    let (r, usable, mine, applied) =
      apply_found-inversion now password_hash id db b (is_some (staff_by_id candidate.staff_id db))
        (usable_by_hash now hash db) done in
    rw
      (
        apply_reset-staff now password_hash r db b applied,
        apply_reset-resets now password_hash r db b applied,
      )
      (used_up h now (update_where (is_stamped r) (new_password password_hash) db.staff)
        (is_pending_of r.staff_id)
        (update_where (λ x. x.id == r.id && is_usable now x) (use_up now) db.password_resets)
        (used_up h now (update_where (is_stamped r) (new_password password_hash) db.staff)
          (λ x. x.id == r.id && is_usable now x) db.password_resets
          (staff_changed h (is_stamped r) (new_password password_hash) db.staff db.password_resets
            (λ s. refl) (λ s. omega arith) k)))

pub Later-IsSpent :
    (c : Crypto) (h : ℕ) {db a : AuthDb} → Later c h db a → IsSpent h db → IsSpent h a
unfolding create_reset cleanup_resets burn_resets_of
Later-IsSpent c h (stay db) k = k
Later-IsSpent c h (issue {a = a} time raw s other l) k =
    All-append (SpentRow h a.staff) a.password_resets (new_reset c time a.next_reset_id raw s ∷ [])
      (Later-IsSpent c h l k) ((λ e. absurd (let clash : c.sha256 raw ≡ h = e in ground arith)), tt)
Later-IsSpent c h (activate {a = a} time id staff version l) k =
    activated h time id staff version a (Later-IsSpent c h l k)
Later-IsSpent c h (clean {a = a} time l) k =
    All-drop_where (SpentRow h a.staff) (λ r. ltb r.expires_at time) a.password_resets
      (Later-IsSpent c h l k)
Later-IsSpent c h (use_link {a = a} time hash password_hash id candidate b done l) k =
    link_used h time hash password_hash id candidate a b done (Later-IsSpent c h l k)
Later-IsSpent c h (burn {a = a} time id l) k =
    used_up h time a.staff (is_pending_of id) a.password_resets (Later-IsSpent c h l k)
Later-IsSpent c h (change_tokens ts l) k = Later-IsSpent c h l k
Later-IsSpent c h (change_staff {a = a} p f same up l) k =
    staff_changed h p f a.staff a.password_resets same up (Later-IsSpent c h l k)
