-- ===== src/Auth/Tests.antt =====
-- The auth theorems at a small database, with toy cryptography in place of the libraries.
use kayaka_style_hd.Prelude.{
  ◌&&◌, ◌+◌, ◌==◌, ℕ, ◌≤◌, ◌≡◌, refl, ◌≢◌, true, false, Option, none, some, List, [], ◌∷◌, arith,
  leb, ◌==◌, if◌then◌else◌, length, find?, count_where, update_where,
}
use kayaka_style_hd.Auth.Store.{
  StaffGroup, Staff, RefreshToken, PasswordReset, AuthDb, ok, err, invalid_reset_token,
  refresh_token_reuse, too_many_attempts,
}
use kayaka_style_hd.Auth.Throttle.{Redis, key, assert_not_throttled, failure_count}
use kayaka_style_hd.Auth.Tokens.{
  AccessClaims, Crypto, Random, World, build_principal, staff_by_id, login,
}
use kayaka_style_hd.Auth.Refresh.{Prepared, prepare, rotate, is_live_family, refresh}
use kayaka_style_hd.Auth.Sessions.{is_live_of, is_pending_of, revoke_staff_sessions}
use kayaka_style_hd.Auth.Reset.{
  cleanup_resets, create_reset, activate_delivered_reset, delivered, forgot_password,
  usable_by_hash, is_stamped, reset_transaction, reset_password,
}
use kayaka_style_hd.Auth.Guard.{Request, as_staff, can_activate}
use kayaka_style_hd.Auth.OneActive.{UniqueJti}
use kayaka_style_hd.Auth.Interleaving.{Reach, Step, with_db}
use kayaka_style_hd.Auth.Invariant.{Reach-OneActive}
use kayaka_style_hd.Auth.Rotation.{rotate_twice, refresh_replay}
use kayaka_style_hd.Auth.Revocation.{admission_after_logout}
use kayaka_style_hd.Auth.ResetOnce.{reset_transaction_lem}
use kayaka_style_hd.Auth.UsedLinks.{stay, issue, activate, clean}
use kayaka_style_hd.Auth.UsedOnce.{reset_password_once}
use kayaka_style_hd.Auth.Delivery.{IsValid, forgot_password-IsValid}
use kayaka_style_hd.Auth.Attempts.{fail_at, assert_not_throttled_exact}

abbrev agents_group : StaffGroup
agents_group = record { id = 4; is_admin = false; permissions = "ticket.view" ∷ [] }

abbrev ann : Staff
ann = record {
  id = 1;
  email = "ann@example.org";
  first_name = "Ann";
  last_name = "Lee";
  password_hash = 11;
  is_enabled = true;
  auth_version = 3;
  last_login_at = none;
  staff_group = agents_group;
}

abbrev ann_claims : AccessClaims
ann_claims = record {
  principal = build_principal ann;
  sub = 1;
  av = some 3;
  issued_at_ms = some 500;
  iat = some 1;
  jti = some 31;
}

-- A refresh token is its jti, of the staff member 1 and the family 7.
abbrev toy : Crypto
toy = record {
  hash_password = λ salt p. p;
  verify_password = λ h p. h == p;
  sign_access = λ now claims. 5;
  verify_access = λ now t. if t == 5 then some ann_claims else none;
  sign_refresh = λ now claims. claims.jti;
  verify_refresh = λ now raw. some (record { sub = 1; jti = raw; fid = 7 });
  sha256 = λ x. x;
  hmac = λ email. 0;
  access_ttl = 900;
  refresh_ttl = 86400;
}

abbrev draw : ℕ → Random
draw n = record { refresh_jti = n; access_jti = 100; family_id = 7; salt = 0 }

abbrev stored_token : Option ℕ → RefreshToken
stored_token revoked_at = record {
  staff_id = 1;
  jti = 21;
  family_id = 7;
  auth_version = 3;
  token_hash = 21;
  expires_at = 90_000_000;
  revoked_at = revoked_at;
}

abbrev link : PasswordReset
link = record {
  id = 1;
  staff_id = 1;
  auth_version = 3;
  token_hash = 77;
  expires_at = 3_600_000;
  used_at = none;
}

abbrev sent_link : PasswordReset
sent_link = record link { used_at = some 0 }

abbrev tables : List RefreshToken → List PasswordReset → AuthDb
tables tokens resets = record {
  staff = ann ∷ [];
  refresh_tokens = tokens;
  password_resets = resets;
  next_reset_id = 2;
}

abbrev quiet : Redis
quiet = record { up = true; failures = []; blocked = []; cutoffs = [] }

abbrev world : World
world = record { db = tables (stored_token none ∷ []) (link ∷ []); redis = quiet }

abbrev next_token : RefreshToken
next_token = record {
  staff_id = 1;
  jti = 22;
  family_id = 7;
  auth_version = 3;
  token_hash = 22;
  expires_at = 86_401_000;
  revoked_at = none;
}

abbrev prepared_at : Option ℕ → ℕ → Prepared
prepared_at revoked_at expiry = record {
  row = stored_token revoked_at;
  staff = ann;
  tokens = record { access_token = 5; refresh_token = 22; refresh_jti = 22 };
  successor = record next_token { expires_at = expiry };
}

unique_token : (revoked_at : Option ℕ) → UniqueJti (stored_token revoked_at ∷ [])
unfolding count_where
unique_token revoked_at j = ground arith

-- The same request, before and after a rotation at time 1000.
reads_live :
    prepare toy (draw 22) 1000 (tables (stored_token none ∷ []) []) 21
    ≡ ok (prepared_at none 86_401_000)
unfolding prepare
reads_live = refl

reads_soon :
    prepare toy (draw 22) 2000 (tables (stored_token (some 1000) ∷ []) []) 21
    ≡ ok (prepared_at (some 1000) 86_402_000)
unfolding prepare
reads_soon = refl

reads_late :
    prepare toy (draw 22) 20_000 (tables (stored_token (some 1000) ∷ []) []) 21
    ≡ ok (prepared_at (some 1000) 86_420_000)
unfolding prepare
reads_late = refl

-- After a login.
abbrev logged_in : AuthDb
logged_in =
    (login toy (draw 21) 1000 (record { db = tables [] []; redis = quiet }) "ann@example.org" 11
      none).0.db

login_reached : Reach toy (with_db (record { db = tables [] []; in_flight = [] }) logged_in)
unfolding count_where
login_reached = Reach.step (Reach.start (tables [] []) refl) (
    Step.log_in (record { db = tables [] []; in_flight = [] }) (draw 21) 1000 quiet
      "ann@example.org" 11 none (record { unstored = refl; unheld = tt }) refl)

Reach-OneActive_example : count_where (is_live_family 7) logged_in.refresh_tokens ≤ 1
Reach-OneActive_example =
    Reach-OneActive toy (with_db (record { db = tables [] []; in_flight = [] }) logged_in)
      login_reached 7

rotate_twice_example :
    rotate 1001
      (prepared_at none 86_401_000)
      (rotate 1000 (prepared_at none 86_401_000) (tables (stored_token none ∷ []) [])).0
    ≡ ((rotate 1000 (prepared_at none 86_401_000) (tables (stored_token none ∷ []) [])).0, 0)
rotate_twice_example =
    rotate_twice 1000 1001 (prepared_at none 86_401_000) (prepared_at none 86_401_000)
      (tables (stored_token none ∷ []) []) refl (λ e. omega (arith, e))

refresh_replay_example :
    ((refresh toy (draw 22) 20_000 (tables (stored_token (some 1000) ∷ []) []) 21).1
      ≡ err refresh_token_reuse)
    × (count_where
          (is_live_family 7)
          (refresh toy
            (draw 22)
            20_000
            (tables (stored_token (some 1000) ∷ []) [])
            21).0.refresh_tokens
        ≡ 0)
refresh_replay_example =
    refresh_replay toy (draw 22) 20_000 21 (tables (stored_token (some 1000) ∷ []) [])
      (prepared_at (some 1000) 86_420_000) (unique_token (some 1000)) reads_late 1000 refl
      (omega arith)

abbrev with_token : Request
with_token = record { is_public = false; bearer = some 5; cookie = none }

abbrev logged_out : Option World
logged_out = revoke_staff_sessions 900 1000 1 world

abbrev world_or : Option World → World
world_or none = world
world_or (some w) = w

has_logged_out : revoke_staff_sessions 900 1000 1 world ≡ some (world_or logged_out)
unfolding revoke_staff_sessions
has_logged_out = refl

ann_stored : staff_by_id 1 world.db ≡ some ann
unfolding find?
ann_stored = refl

admission_after_logout_example :
    can_activate toy 2000 true (world_or logged_out) with_token
    ≢ ok (as_staff (build_principal ann))
unfolding build_principal
admission_after_logout_example =
    admission_after_logout 900 1000 1 world (world_or logged_out) ann ann_stored has_logged_out toy
      2000 true with_token 5 3 ann_claims (build_principal ann) refl refl refl refl (omega arith)

abbrev reset_done : Option (ℕ × AuthDb)
reset_done = reset_transaction 1000 77 12 link world.db

abbrev db_or : Option (ℕ × AuthDb) → AuthDb
db_or none = world.db
db_or (some (id, db)) = db

reset_commits : reset_transaction 1000 77 12 link world.db ≡ some (1, db_or reset_done)
unfolding reset_transaction
reset_commits = refl

reset_transaction_lem_example :
    (r : PasswordReset) × (usable_by_hash 1000 77 world.db ≡ some r)
    × (r.staff_id ≡ 1)
    × (count_where (is_stamped r) world.db.staff ≡ 1)
    × ((db_or reset_done).staff
        ≡ update_where
            (λ s. s.id == r.staff_id && s.is_enabled && s.auth_version == r.auth_version)
            (λ s. record s { password_hash = 12; auth_version = s.auth_version + 1 })
            world.db.staff)
    × (count_where (is_live_of 1) (db_or reset_done).refresh_tokens ≡ 0)
    × (count_where (is_pending_of 1) (db_or reset_done).password_resets ≡ 0)
reset_transaction_lem_example =
    reset_transaction_lem 1000 77 12 1 link world.db (db_or reset_done) reset_commits

reset_succeeds : (reset_password toy 0 1000 world 77 12).1 ≡ ok tt
unfolding reset_password
reset_succeeds = refl

abbrev reset_world : World
unfolding reset_password
reset_world = (reset_password toy 0 1000 world 77 12).0

-- After the use, another link is issued and delivered, and the expired ones are removed.
abbrev changed_db : AuthDb
unfolding reset_password cleanup_resets create_reset activate_delivered_reset
changed_db =
    cleanup_resets 1800
      (activate_delivered_reset 1700 2 1 4 (create_reset toy 1600 78 ann reset_world.db)).0

one_digest : count_where (λ x. x.token_hash == toy.sha256 77) world.db.password_resets ≤ 1
unfolding count_where
one_digest = omega arith

one_id : (i : ℕ) → count_where (λ s. s.id == i) world.db.staff ≤ 1
unfolding count_where
one_id i = ground arith

reset_password_once_example :
    reset_password toy 0 2000 (record { db = changed_db; redis = world.redis }) 77 13
    ≡ (record { db = changed_db; redis = world.redis }, err invalid_reset_token)
unfolding reset_world reset_password cleanup_resets changed_db
reset_password_once_example =
    reset_password_once toy 0 0 1000 2000 world 77 12 13 changed_db world.redis one_digest one_id
      reset_succeeds
      (clean 1800 (activate 1700 2 1 4 (issue 1600 78 ann refl (stay reset_world.db))))

links-IsValid : IsValid (tables [] (link ∷ []))
unfolding count_where
links-IsValid = record {
  one_active = λ s. ground arith;
  unique_id = λ i. ground arith;
  below_next = (omega arith, tt);
}

forgot_password-IsValid_example :
    IsValid (forgot_password toy 1000 1100 78 delivered "ann@example.org" (tables [] (link ∷ [])))
forgot_password-IsValid_example =
    forgot_password-IsValid toy 1000 1100 78 delivered "ann@example.org" (tables [] (link ∷ []))
      links-IsValid

link_activated : (activate_delivered_reset 1000 1 1 3 (tables [] (sent_link ∷ []))).1 ≡ true
unfolding activate_delivered_reset
link_activated = refl

none_counted : failure_count 0 (key toy.hmac "ann@example.org" "10.0.0.1") quiet.failures ≡ none
unfolding failure_count
none_counted = refl

assert_not_throttled_exact_example :
    assert_not_throttled toy.hmac 20
      (fail_at toy.hmac (0 ∷ 10 ∷ []) quiet "ann@example.org" (some "10.0.0.1"))
      "ann@example.org"
      (some "10.0.0.1")
    ≡ (if leb 10 (length {A = ℕ} (0 ∷ 10 ∷ [])) then err too_many_attempts else ok tt)
assert_not_throttled_exact_example =
    assert_not_throttled_exact toy.hmac 0 (10 ∷ []) 20 quiet "ann@example.org" "10.0.0.1" refl
      none_counted (omega arith, omega arith)

abbrev bob : Staff
bob = record ann { id = 2; email = "bob@example.org" }

abbrev bob_token : RefreshToken
bob_token = record {
  staff_id = 2;
  jti = 41;
  family_id = 9;
  auth_version = 3;
  token_hash = 41;
  expires_at = 90_000_000;
  revoked_at = none;
}

abbrev shared_world : World
shared_world = record {
  db = record (tables (stored_token none ∷ bob_token ∷ []) []) { staff = ann ∷ bob ∷ [] };
  redis = quiet;
}

abbrev left_to_bob : World
left_to_bob = world_or (revoke_staff_sessions 900 1000 1 shared_world)

ann_shared : staff_by_id 1 shared_world.db ≡ some ann
unfolding find?
ann_shared = refl

ann_leaves : revoke_staff_sessions 900 1000 1 shared_world ≡ some left_to_bob
unfolding revoke_staff_sessions
ann_leaves = refl

abbrev bob_prepared : Prepared
bob_prepared = record {
  row = bob_token;
  staff = bob;
  tokens = record { access_token = 5; refresh_token = 42; refresh_jti = 42 };
  successor = record bob_token { jti = 42; token_hash = 42; expires_at = 86_402_000 };
}

bob_refreshes : prepare toy (draw 42) 2000 left_to_bob.db 41 ≡ ok bob_prepared
unfolding prepare revoke_staff_sessions
bob_refreshes = refl
