-- ===== src/Auth/Reset.antt =====
-- apps/api/src/auth/auth.service.ts: issue, delivery and use of a password-reset link.
use Prim.Native.String.{String}
use kayaka_style_hd.Prelude.{
  ℕ, ◌+◌, Bool, false, not, ◌&&◌, ◌||◌, Option, none, some, [], ◌∷◌, ◌++◌, ltb, ◌==◌, if◌then◌else◌,
  is_none, is_some, find?, count_where, update_where, drop_where,
}
use kayaka_style_hd.Auth.Store.{Staff, PasswordReset, AuthDb, invalid_reset_token, Result, ok, err}
use kayaka_style_hd.Auth.Tokens.{staff_by_email, Crypto, World, enabled, staff_by_id}
use kayaka_style_hd.Auth.Sessions.{use_up, burn_resets_of, revoke_refresh_of, revoke_all_for_staff}

abbrev pub hour_ms : ℕ
hour_ms = 3_600_000

-- The row of a new link: inactive, until the message is delivered.
abbrev pub new_reset : Crypto → ℕ → ℕ → ℕ → Staff → PasswordReset
new_reset c now id raw s = record {
  id = id;
  staff_id = s.id;
  auth_version = s.auth_version;
  token_hash = c.sha256 raw;
  expires_at = now + hour_ms;
  used_at = some now;
}

-- `passwordReset.create`
unfoldable pub create_reset : Crypto → ℕ → ℕ → Staff → AuthDb → AuthDb
create_reset c now raw s db = record db {
  password_resets = db.password_resets ++ new_reset c now db.next_reset_id raw s ∷ [];
  next_reset_id = db.next_reset_id + 1;
}

-- `deleteMany` of the expired links; it runs beside the request.
unfoldable pub cleanup_resets : ℕ → AuthDb → AuthDb
unfolding drop_where
cleanup_resets now db = record db {
  password_resets = drop_where (λ r. ltb r.expires_at now) db.password_resets;
}

abbrev pub is_newer_active : ℕ → ℕ → ℕ → PasswordReset → Bool
is_newer_active now reset_id staff_id r =
    r.staff_id == staff_id && ltb reset_id r.id && is_none r.used_at && ltb now r.expires_at

abbrev pub can_activate : ℕ → ℕ → ℕ → ℕ → PasswordReset → Bool
can_activate now reset_id staff_id version r =
    r.id == reset_id
    && r.staff_id == staff_id
    && r.auth_version == version
    && is_some r.used_at
    && ltb now r.expires_at

abbrev pub make_active : PasswordReset → PasswordReset
make_active r = record r { used_at = none }

abbrev pub version_is : ℕ → Option Staff → Bool
version_is v none = false
version_is v (some s) = s.auth_version == v

-- The transaction that makes a delivered link usable.
unfoldable pub activate_delivered_reset : ℕ → ℕ → ℕ → ℕ → AuthDb → AuthDb × Bool
unfolding find? burn_resets_of update_where count_where
activate_delivered_reset now reset_id staff_id version db =
    let current = enabled (staff_by_id staff_id db) in
    let newer = find? (is_newer_active now reset_id staff_id) db.password_resets in
    let burnt = burn_resets_of now staff_id db in
    let test = can_activate now reset_id staff_id version in
    if not (version_is version current) || is_some newer then (db, false) else (
      record burnt { password_resets = update_where test make_active burnt.password_resets },
      count_where test burnt.password_resets == 1,
    )

-- What the mailer answers: none is configured, it throws, or it accepts the message.
pub data Mailing : Type 0 where
  no_mailer failed delivered : Mailing

abbrev pub after_mail : ℕ → ℕ → Staff → AuthDb → Mailing → AuthDb
after_mail now id s db no_mailer = db
after_mail now id s db failed = db
after_mail now id s db delivered = (activate_delivered_reset now id s.id s.auth_version db).0

abbrev pub issue_reset : Crypto → ℕ → ℕ → ℕ → Mailing → AuthDb → Option Staff → AuthDb
issue_reset c now sent raw mail db none = db
issue_reset c now sent raw mail db (some s) =
    after_mail sent db.next_reset_id s (create_reset c now raw s db) mail

-- `forgotPassword` with no other request between its parts, and without the clean-up that it starts
-- and does not wait for (`cleanup_resets`); the message is accepted at `sent`.
unfoldable pub forgot_password : Crypto → ℕ → ℕ → ℕ → Mailing → String → AuthDb → AuthDb
unfolding find? create_reset activate_delivered_reset
forgot_password c now sent raw mail email db =
    issue_reset c now sent raw mail db (enabled (staff_by_email email db))

abbrev pub is_usable : ℕ → PasswordReset → Bool
is_usable now r = is_none r.used_at && ltb now r.expires_at

abbrev pub reset_by_hash : ℕ → AuthDb → Option PasswordReset
reset_by_hash h db = find? (λ r. r.token_hash == h) db.password_resets

abbrev pub usable_by_hash : ℕ → ℕ → AuthDb → Option PasswordReset
usable_by_hash now h db = elim (reset_by_hash h db) [
  | none ↦ none
  | some r ↦ if is_usable now r then some r else none
]

abbrev pub is_stamped : PasswordReset → Staff → Bool
is_stamped r s = s.id == r.staff_id && s.is_enabled && s.auth_version == r.auth_version

abbrev pub new_password : ℕ → Staff → Staff
new_password h s = record s { password_hash = h; auth_version = s.auth_version + 1 }

-- The writes of the transaction, in its order. `none` is a throw, which rolls all of them back.
unfoldable pub apply_reset : ℕ → ℕ → PasswordReset → AuthDb → Option AuthDb
unfolding count_where update_where burn_resets_of revoke_refresh_of
apply_reset now password_hash r db =
    let claim = λ (x : PasswordReset). x.id == r.id && is_usable now x in
    let claimed = record db {
      password_resets = update_where claim (use_up now) db.password_resets;
    } in
    let changed = record claimed {
      staff = update_where (is_stamped r) (new_password password_hash) claimed.staff;
    } in
    let closed = burn_resets_of now r.staff_id (revoke_refresh_of now r.staff_id changed) in
    if count_where claim db.password_resets == 1 && count_where (is_stamped r) db.staff == 1
    then some closed
    else none

abbrev pub with_staff_of : PasswordReset → AuthDb → Option PasswordReset → Option PasswordReset
with_staff_of candidate db r = if is_some (staff_by_id candidate.staff_id db) then r else none

abbrev pub apply_found : ℕ → ℕ → AuthDb → Option PasswordReset → Option (ℕ × AuthDb)
apply_found now password_hash db none = none
apply_found now password_hash db (some r) = elim (apply_reset now password_hash r db) [
  | none ↦ none
  | some db' ↦ some (r.staff_id, db')
]

-- The whole transaction, on the database that it finds.
unfoldable pub reset_transaction : ℕ → ℕ → ℕ → PasswordReset → AuthDb → Option (ℕ × AuthDb)
unfolding find? apply_reset
reset_transaction now token_hash password_hash candidate db =
    apply_found now password_hash db (with_staff_of candidate db (usable_by_hash now token_hash db))

abbrev pub finish_reset : Crypto → ℕ → World → Option (ℕ × AuthDb) → World × Result (Unit {0})
finish_reset c now w none = (w, err invalid_reset_token)
finish_reset c now w (some (staff_id, db)) =
    (revoke_all_for_staff c.access_ttl now staff_id (record w { db = db }), ok tt)

abbrev pub after_check :
    Crypto → ℕ → ℕ → ℕ → World → Option PasswordReset → World × Result (Unit {0})
after_check c now token_hash password_hash w none = (w, err invalid_reset_token)
after_check c now token_hash password_hash w (some r) =
    finish_reset c now w (reset_transaction now token_hash password_hash r w.db)

-- `resetPassword` with no other request between its parts.
unfoldable pub reset_password : Crypto → ℕ → ℕ → World → ℕ → ℕ → World × Result (Unit {0})
unfolding find? reset_transaction revoke_all_for_staff
reset_password c salt now w token password =
    let h = c.sha256 token in
    after_check c now h (c.hash_password salt password) w (usable_by_hash now h w.db)
