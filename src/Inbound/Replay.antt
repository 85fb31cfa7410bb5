-- ===== src/Inbound/Replay.antt =====
-- What the operators' actions of apps/api/src/modules/mail/email-queue.service.ts have found where
-- they succeed.
use kayaka_style_hd.Prelude.{
  ok, found, bind-eq-ok, require-eq-ok, ok-injective, ℕ, ◌≡◌, refl, sym, ap, subst, Bool, true,
  false, not, ◌&&◌, Option, none, some, [], ◌∷◌, ◌++◌, arith, ◌==◌, find?, count_where,
  update_where,
}
use kayaka_style_hd.Inbound.Store.{
  same_state, is_option, normal_delivery_canary_configured, normal_delivery_canary, DeliveryState,
  accepted, processing, retry, processed, skipped, quarantined, captured, unresolved,
  InboundDelivery, Config, Canary,
}
use kayaka_style_hd.Inbound.Access.{
  resolve_scope, delivery_by_id_where_for_scope, MailDepartmentScope,
}
use kayaka_style_hd.Inbound.Operators.{
  staff_of, scope_or_refusal, lock_delivery_queue_capture_state, is_seen, in_state, find_seen,
  replayed, is_replayable, update_one, replay_row, replay_in, replay_quarantined,
  assert_capture_promotion_enabled, promoted, is_promotable, promote_row, promote_in,
  promote_canary, promote_captured, OperatorError, capture_only_active, promotion_disabled,
  no_canary, incomplete_canary, other_delivery, delivery_not_found, other_queue, retired_queue,
  unretired_queue, truncated_mime, delivery_changed, quarantine_replay, capture_promoted, AuditRow,
  MailTables, MailRequest,
}
use kayaka_style_hd.Inbound.Claim.{normal_delivery_lifecycle_fence, queue_of}

found-eq-ok :
    {A : Type 0} (o : Option A) (why : OperatorError) {x : A} → found o why ≡ ok x → o ≡ some x
found-eq-ok none why h = absurd (cc)
found-eq-ok (some y) why h = ap some (ok-injective h)

update_one-eq-ok :
    (now : ℕ) (test : InboundDelivery → Bool) (f : InboundDelivery → InboundDelivery)
    (row : AuditRow) (db after : MailTables)
    → update_one now test f row db ≡ ok after
    → (count_where test db.ledger.deliveries ≡ 1)
      × (after ≡ record db {
        ledger = record (db.ledger) { deliveries = update_where test f db.ledger.deliveries };
        audit = db.audit ++ row ∷ [];
      })
unfolding update_one
update_one-eq-ok now test f row db after h =
    let r = require-eq-ok (count_where test db.ledger.deliveries == 1) delivery_changed _ h in
    (ground arith, sym (ok-injective r.1))

-- What a successful replay has found, and what it writes.
pub record Replays (c : Config) (now : ℕ) (r : MailRequest) (db after : MailTables) : Type 0 where
  pub open_gate : not c.capture_only_enabled ≡ true
  pub scope : MailDepartmentScope
  pub row : InboundDelivery
  pub resolved : scope_or_refusal (resolve_scope db.memberships r.actor) ≡ ok scope
  pub seen : find? (is_seen db scope r.delivery_id) db.ledger.deliveries ≡ some row
  pub was_quarantined : same_state row.state quarantined ≡ true
  pub whole : not row.truncated ≡ true
  pub unchanged : row.updated_at ≡ r.expected_updated_at
  pub allowed : lock_delivery_queue_capture_state db.ledger row.queue_id false ≡ true
  pub one : count_where (is_replayable db scope r) db.ledger.deliveries ≡ 1
  pub written :
      after.ledger.deliveries
      ≡ update_where
          (is_replayable db scope r)
          (λ d. record d {
            state = accepted;
            attempts = 0;
            next_attempt_at = none;
            lease_owner = none;
            lease_expires_at = none;
            updated_at = now;
          })
          db.ledger.deliveries
  pub chosen :
      (d : InboundDelivery)
      → is_replayable db scope r d ≡ true
      → (d.id ≡ r.delivery_id) × (d.state ≡ quarantined) × (d.updated_at ≡ r.expected_updated_at)
  pub audited :
      after.audit
      ≡ db.audit
        ++ record {
          action = quarantine_replay;
          delivery_id = r.delivery_id;
          actor_staff_id = staff_of r.actor;
        }
          ∷ []

same_state-quarantined : (s : DeliveryState) → same_state s quarantined ≡ true → s ≡ quarantined
same_state-quarantined quarantined h = refl
same_state-quarantined accepted h = absurd (cc)
same_state-quarantined processing h = absurd (cc)
same_state-quarantined retry h = absurd (cc)
same_state-quarantined processed h = absurd (cc)
same_state-quarantined skipped h = absurd (cc)
same_state-quarantined captured h = absurd (cc)

same_state-captured : (s : DeliveryState) → same_state s captured ≡ true → s ≡ captured
same_state-captured captured h = refl
same_state-captured accepted h = absurd (cc)
same_state-captured processing h = absurd (cc)
same_state-captured retry h = absurd (cc)
same_state-captured processed h = absurd (cc)
same_state-captured skipped h = absurd (cc)
same_state-captured quarantined h = absurd (cc)

is_replayable-chosen :
    (db : MailTables) (s : MailDepartmentScope) (r : MailRequest) (d : InboundDelivery)
    → is_replayable db s r d ≡ true
    → (d.id ≡ r.delivery_id) × (d.state ≡ quarantined) × (d.updated_at ≡ r.expected_updated_at)
unfolding normal_delivery_lifecycle_fence delivery_by_id_where_for_scope
is_replayable-chosen db s r d h =
    (ground arith, same_state-quarantined d.state (ground arith), ground arith)

is_promotable-chosen :
    (db : MailTables) (s : MailDepartmentScope) (r : MailRequest) (k : Canary) (d : InboundDelivery)
    → is_promotable db s r k d ≡ true
    → (d.id ≡ r.delivery_id) × (d.state ≡ captured) × (d.updated_at ≡ r.expected_updated_at)
unfolding delivery_by_id_where_for_scope queue_of
is_promotable-chosen db s r k d h =
    (ground arith, same_state-captured d.state (ground arith), ground arith)

pub replay_quarantined-eq-ok :
    (c : Config) (now : ℕ) (r : MailRequest) (db after : MailTables)
    → replay_quarantined c now r db ≡ ok after
    → Replays c now r db after
unfolding replay_quarantined find_seen
replay_quarantined-eq-ok c now r db after h =
    let h1 = (require-eq-ok (not c.capture_only_enabled) capture_only_active _ h).1 in
    let (s, es, h2) =
      bind-eq-ok (scope_or_refusal (resolve_scope db.memberships r.actor)) (replay_in now r db)
        h1 in
    let (d, ed, h3) =
      bind-eq-ok (find_seen db s r.delivery_id quarantined) (replay_row now r db s) h2 in
    let (x, ex, hx) =
      bind-eq-ok
        (found (find? (is_seen db s r.delivery_id) db.ledger.deliveries) delivery_not_found)
        (in_state quarantined) ed in
    let st = require-eq-ok (same_state x.state quarantined) delivery_not_found (ok x) hx in
    let same : x ≡ d = ok-injective st.1 in
    let r1 = require-eq-ok (not d.truncated) truncated_mime _ h3 in
    let r2 = require-eq-ok (d.updated_at == r.expected_updated_at) delivery_changed _ r1.1 in
    let r3 =
      require-eq-ok (lock_delivery_queue_capture_state db.ledger d.queue_id false) retired_queue _
        r2.1 in
    let u = update_one-eq-ok now (is_replayable db s r) (replayed now) _ db after r3.1 in
    record {
      open_gate = (require-eq-ok (not c.capture_only_enabled) capture_only_active _ h).0;
      scope = s;
      row = d;
      resolved = es;
      seen =
          subst (λ y. find? (is_seen db s r.delivery_id) db.ledger.deliveries ≡ some y) same
            (found-eq-ok _ delivery_not_found ex);
      was_quarantined = subst (λ y. same_state y.state quarantined ≡ true) same st.0;
      whole = r1.0;
      unchanged = let e = r2.0 in ground arith;
      allowed = r3.0;
      one = u.0;
      written = ap (λ t. t.ledger.deliveries) u.1;
      chosen = is_replayable-chosen db s r;
      audited = ap (λ t. t.audit) u.1;
    }

-- What a successful promotion has found, and what it writes.
pub record Promotes (c : Config) (now : ℕ) (r : MailRequest) (db after : MailTables) : Type 0 where
  pub canary : Canary
  pub scope : MailDepartmentScope
  pub row : InboundDelivery
  pub selected : normal_delivery_canary c ≡ some canary
  pub named : canary.delivery_id ≡ r.delivery_id
  pub open_gate : (c.delivery_enabled && not c.capture_only_enabled) ≡ true
  pub resolved : scope_or_refusal (resolve_scope db.memberships r.actor) ≡ ok scope
  pub seen : find? (is_seen db scope r.delivery_id) db.ledger.deliveries ≡ some row
  pub was_captured : same_state row.state captured ≡ true
  pub in_queue : is_option row.queue_id canary.queue_id ≡ true
  pub allowed : lock_delivery_queue_capture_state db.ledger row.queue_id true ≡ true
  pub whole : not row.truncated ≡ true
  pub unchanged : row.updated_at ≡ r.expected_updated_at
  pub one : count_where (is_promotable db scope r canary) db.ledger.deliveries ≡ 1
  pub written :
      after.ledger.deliveries
      ≡ update_where
          (is_promotable db scope r canary)
          (λ d. record d {
            state = accepted;
            capture_promoted_at = some now;
            effective_owner_kind = unresolved;
            effective_owner_department_id = none;
            effective_owner_ticket_id = none;
            attempts = 0;
            next_attempt_at = none;
            lease_owner = none;
            lease_expires_at = none;
            updated_at = now;
          })
          db.ledger.deliveries
  pub chosen :
      (d : InboundDelivery)
      → is_promotable db scope r canary d ≡ true
      → (d.id ≡ r.delivery_id) × (d.state ≡ captured) × (d.updated_at ≡ r.expected_updated_at)
  pub audited :
      after.audit
      ≡ db.audit
        ++ record {
          action = capture_promoted;
          delivery_id = r.delivery_id;
          actor_staff_id = staff_of r.actor;
        }
          ∷ []

promotion_enabled-eq-ok :
    (c : Config) (k : Canary)
    → assert_capture_promotion_enabled c ≡ ok k
    → ((c.delivery_enabled && not c.capture_only_enabled) ≡ true)
      × (normal_delivery_canary c ≡ some k)
unfolding assert_capture_promotion_enabled
promotion_enabled-eq-ok c k h =
    let a =
      require-eq-ok (c.delivery_enabled && not c.capture_only_enabled) promotion_disabled _ h in
    let b = require-eq-ok (normal_delivery_canary_configured c) no_canary _ a.1 in
    (a.0, found-eq-ok (normal_delivery_canary c) incomplete_canary b.1)

pub promote_captured-eq-ok :
    (c : Config) (now : ℕ) (r : MailRequest) (db after : MailTables)
    → promote_captured c now r db ≡ ok after
    → Promotes c now r db after
unfolding promote_captured find_seen
promote_captured-eq-ok c now r db after h =
    let (k, ek, h0) = bind-eq-ok (assert_capture_promotion_enabled c) (promote_canary now r db) h in
    let gate = promotion_enabled-eq-ok c k ek in
    let named = require-eq-ok (k.delivery_id == r.delivery_id) other_delivery _ h0 in
    let (s, es, h2) =
      bind-eq-ok (scope_or_refusal (resolve_scope db.memberships r.actor)) (promote_in now r db k)
        named.1 in
    let (d, ed, h3) =
      bind-eq-ok (find_seen db s r.delivery_id captured) (promote_row now r db k s) h2 in
    let (x, ex, hx) =
      bind-eq-ok
        (found (find? (is_seen db s r.delivery_id) db.ledger.deliveries) delivery_not_found)
        (in_state captured) ed in
    let st = require-eq-ok (same_state x.state captured) delivery_not_found (ok x) hx in
    let same : x ≡ d = ok-injective st.1 in
    let r0 = require-eq-ok (is_option d.queue_id k.queue_id) other_queue _ h3 in
    let r1 =
      require-eq-ok (lock_delivery_queue_capture_state db.ledger d.queue_id true) unretired_queue _
        r0.1 in
    let r2 = require-eq-ok (not d.truncated) truncated_mime _ r1.1 in
    let r3 = require-eq-ok (d.updated_at == r.expected_updated_at) delivery_changed _ r2.1 in
    let u = update_one-eq-ok now (is_promotable db s r k) (promoted now) _ db after r3.1 in
    record {
      canary = k;
      scope = s;
      row = d;
      selected = gate.1;
      named = let e = named.0 in ground arith;
      open_gate = gate.0;
      resolved = es;
      seen =
          subst (λ y. find? (is_seen db s r.delivery_id) db.ledger.deliveries ≡ some y) same
            (found-eq-ok _ delivery_not_found ex);
      was_captured = subst (λ y. same_state y.state captured ≡ true) same st.0;
      in_queue = r0.0;
      allowed = r1.0;
      whole = r2.0;
      unchanged = let e = r3.0 in ground arith;
      one = u.0;
      written = ap (λ t. t.ledger.deliveries) u.1;
      chosen = is_promotable-chosen db s r k;
      audited = ap (λ t. t.audit) u.1;
    }
