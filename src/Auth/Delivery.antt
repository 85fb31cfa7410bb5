-- ===== src/Auth/Delivery.antt =====
-- At most one reset link of a staff member is active: issue and delivery in
-- apps/api/src/auth/auth.service.ts.
use Prim.Native.String.{String}
use kayaka_style_hd.Prelude.{
  ℕ, ◌+◌, ◌≤◌, ◌<◌, ◌≡◌, refl, ◌∙◌, subst, ◌⊎◌, inl, inr, Bool, true, false, not, ◌||◌, Option,
  none, some, List, [], ◌∷◌, arith, ◌==◌, ==_iff, Bool-cases, is_some, All, All-append, All-map,
  find?, count_where, update_where, count_where-update_where_same, count_where-update_where_le,
  count_where_mono, count_where_none, count_where-update_where_in, count_where-update_where_le_add,
  count_where-sole, All-update_where,
}
use kayaka_style_hd.Auth.Store.{Staff, PasswordReset, AuthDb}
use kayaka_style_hd.Auth.Tokens.{Crypto, enabled, staff_by_id, staff_by_email}
use kayaka_style_hd.Auth.Sessions.{is_pending_of, use_up}
use kayaka_style_hd.Auth.Revocation.{burnt_of}
use kayaka_style_hd.Auth.Reset.{
  new_reset, create_reset, activate_delivered_reset, can_activate, make_active, version_is,
  is_newer_active, Mailing, no_mailer, failed, delivered, forgot_password, issue_reset,
}

abbrev pub has_id : ℕ → PasswordReset → Bool
has_id i r = r.id == i

-- Keys come from the sequence, once each, and a staff member has at most one active link.
pub record IsValid (db : AuthDb) : Type 0 where
  pub one_active : (staff_id : ℕ) → count_where (is_pending_of staff_id) db.password_resets ≤ 1
  pub unique_id : (i : ℕ) → count_where (has_id i) db.password_resets ≤ 1
  pub below_next : All (λ r. r.id < db.next_reset_id) db.password_resets

module _ (now staff_id reset_id version : ℕ) (rs : List PasswordReset) where
  abbrev burn : List PasswordReset
  burn = update_where (is_pending_of staff_id) (use_up now) rs

  abbrev activate : List PasswordReset
  activate = update_where (can_activate now reset_id staff_id version) make_active burn

  count_id-activate : (i : ℕ) → count_where (has_id i) activate ≡ count_where (has_id i) rs
  count_id-activate i =
      count_where-update_where_same (has_id i) (can_activate now reset_id staff_id version)
        make_active burn (λ x _. refl)
      ∙ count_where-update_where_same (has_id i) (is_pending_of staff_id) (use_up now) rs
          (λ x _. refl)

  -- What is active after the burn and the activation has been activated.
  pending-activate_self :
      count_where (is_pending_of staff_id) activate
      ≤ count_where (can_activate now reset_id staff_id version) burn
  pending-activate_self = omega (
    arith,
    burnt_of now staff_id rs,
    count_where-update_where_le_add (is_pending_of staff_id)
        (can_activate now reset_id staff_id version) make_active burn,
  )

  activated-le :
      count_where (can_activate now reset_id staff_id version) burn
      ≤ count_where (has_id reset_id) rs
  activated-le = omega (
    arith,
    count_where_mono (can_activate now reset_id staff_id version) (has_id reset_id) burn
        (λ x e. ground arith),
    count_where-update_where_same (has_id reset_id) (is_pending_of staff_id) (use_up now) rs
        (λ x _. refl),
  )

  pending-activate_other :
      (j : ℕ)
      → (staff_id == j) ≡ false
      → count_where (is_pending_of j) activate ≤ count_where (is_pending_of j) rs
  pending-activate_other j h = omega (
    arith,
    count_where-update_where_le (is_pending_of j) (can_activate now reset_id staff_id version)
        make_active burn (λ x e f. ground arith),
    count_where-update_where_le (is_pending_of j) (is_pending_of staff_id) (use_up now) rs
        (λ x e f. ground arith),
  )

module _ (db : AuthDb) (v : IsValid db) where
  activated-IsValid :
      (now staff_id reset_id version : ℕ)
      → IsValid (record db {
        password_resets = activate now staff_id reset_id version db.password_resets;
      })
  activated-IsValid now staff_id reset_id version = record {
    one_active = λ j. one j (Bool-cases (staff_id == j));
    unique_id =
        λ i. omega (arith, v.unique_id i, count_id-activate now staff_id reset_id version rs i);
    below_next =
        All-update_where (λ r. r.id < db.next_reset_id) (can_activate now reset_id staff_id version)
          make_active (burn now staff_id reset_id version rs) (λ x _ h. h)
          (All-update_where (λ r. r.id < db.next_reset_id) (is_pending_of staff_id) (use_up now) rs
            (λ x _ h. h) v.below_next);
  }
    where
      rs : List PasswordReset
      rs = db.password_resets

      one :
          (j : ℕ)
          → ((staff_id == j) ≡ true) ⊎ ((staff_id == j) ≡ false)
          → count_where (is_pending_of j) (activate now staff_id reset_id version rs) ≤ 1
      one j (inl e) =
          let same : staff_id ≡ j = (==_iff _ _).0 e in
          subst (λ i. count_where (is_pending_of i) (activate now staff_id reset_id version rs) ≤ 1)
            same
            (omega (
              arith,
              v.unique_id reset_id,
              activated-le now staff_id reset_id version rs,
              pending-activate_self now staff_id reset_id version rs,
            ))
      one j (inr e) =
          omega (arith, v.one_active j, pending-activate_other now staff_id reset_id version rs j e)

  activate_delivered_reset-IsValid :
      (now reset_id staff_id version : ℕ)
      → IsValid (activate_delivered_reset now reset_id staff_id version db).0
  unfolding activate_delivered_reset
  activate_delivered_reset-IsValid now reset_id staff_id version =
      let blocked =
        not (version_is version (enabled (staff_by_id staff_id db)))
        || is_some (find? (is_newer_active now reset_id staff_id) db.password_resets) in
      elim (Bool-cases blocked) [
        | inl e ↦ rw e v
        | inr e ↦ rw e (activated-IsValid now staff_id reset_id version)
      ]

  create_reset-IsValid :
      (c : Crypto) (now raw : ℕ) (s : Staff) → IsValid (create_reset c now raw s db)
  unfolding create_reset
  create_reset-IsValid c now raw s =
      let row = new_reset c now db.next_reset_id raw s in
      let rs = db.password_resets in
      record {
        one_active = λ j. rw count_where-sole (ground (arith, v.one_active j));
        unique_id = λ i. elim (Bool-cases (db.next_reset_id == i)) [
          | inl e ↦
              rw (count_where-sole, e)
                (omega (
                  arith,
                  count_where_none (has_id i) rs (
                      All-map (λ r. r.id < db.next_reset_id) (λ r. has_id i r ≡ false)
                        (λ r h. ground arith) rs v.below_next),
                ))
          | inr e ↦ rw (count_where-sole, e) (omega (arith, v.unique_id i))
        ];
        below_next =
            All-append (λ r. r.id < db.next_reset_id + 1) rs (row ∷ [])
              (All-map (λ r. r.id < db.next_reset_id) (λ r. r.id < db.next_reset_id + 1)
                (λ r h. omega arith) rs v.below_next)
              (omega arith, tt);
      }

-- Whatever the mailer answers, a request for a reset link keeps the keys unique and leaves every
-- staff member at most one active link.
pub forgot_password-IsValid :
    (c : Crypto) (now sent raw : ℕ) (mail : Mailing) (email : String) (db : AuthDb)
    → IsValid db
    → IsValid (forgot_password c now sent raw mail email db)
unfolding forgot_password
forgot_password-IsValid c now sent raw mail email db v = go (enabled (staff_by_email email db)) mail
  where
    go : (o : Option Staff) (m : Mailing) → IsValid (issue_reset c now sent raw m db o)
    go none m = v
    go (some s) no_mailer = create_reset-IsValid db v c now raw s
    go (some s) failed = create_reset-IsValid db v c now raw s
    go (some s) delivered =
        activate_delivered_reset-IsValid (create_reset c now raw s db)
          (create_reset-IsValid db v c now raw s) sent db.next_reset_id s.id s.auth_version

-- Where the delivery reports that a link became active, the staff member is enabled and unchanged
-- since the issue, and has exactly one active link.
pub activate_delivered_reset_lem :
    (now reset_id staff_id version : ℕ) (db : AuthDb)
    → (activate_delivered_reset now reset_id staff_id version db).1 ≡ true
    → (version_is version (enabled (staff_by_id staff_id db)) ≡ true)
      × (count_where
            (is_pending_of staff_id)
            (activate_delivered_reset now reset_id staff_id version db).0.password_resets
          ≡ 1)
unfolding activate_delivered_reset
activate_delivered_reset_lem now reset_id staff_id version db h =
    let rs = db.password_resets in
    let b = burn now staff_id reset_id version rs in
    let test = can_activate now reset_id staff_id version in
    let in_order : count_where test b
        ≤ count_where (is_pending_of staff_id) (update_where test make_active b) =
      count_where-update_where_in (is_pending_of staff_id) test make_active b
        (λ x e. ground arith) in
    (ground arith, ground (arith, pending-activate_self now staff_id reset_id version rs, in_order))
