-- ===== src/Inbound/Operators.antt =====
-- What operators do to deliveries: `replayQuarantined` and `promoteCaptured` of
-- apps/api/src/modules/mail/email-queue.service.ts, in the transaction of each.
use kayaka_style_hd.Prelude.{
  Outcome, ok, err, ◌>>=◌, ◌>>◌, require, found, ℕ, Bool, true, false, not, ◌&&◌, Option, none,
  some, List, [], ◌∷◌, ◌++◌, ◌==◌, if◌then◌else◌, is_none, is_some, find?, count_where,
  update_where,
}
use kayaka_style_hd.Tickets.Store.{Ticket, Membership}
use kayaka_style_hd.Inbound.Store.{
  same_state, is_option, normal_delivery_canary_configured, normal_delivery_canary, DeliveryState,
  accepted, quarantined, captured, unresolved, InboundDelivery, Ledger, Config, Canary,
}
use kayaka_style_hd.Inbound.Access.{
  resolve_scope, delivery_by_id_where_for_scope, MailAccessActor, MailDepartmentScope, MailRefusal,
}
use kayaka_style_hd.Inbound.Claim.{is_retired_queue, queue_of, normal_delivery_lifecycle_fence}

pub data OperatorError : Type 0 where
  capture_only_active promotion_disabled no_canary incomplete_canary other_delivery : OperatorError
  access_refused delivery_not_found other_queue retired_queue unretired_queue : OperatorError
  truncated_mime delivery_changed : OperatorError

-- What an audit row keeps of an operator's action.
pub data AuditAction : Type 0 where
  quarantine_replay capture_promoted : AuditAction

pub record AuditRow : Type 0 where
  pub action : AuditAction
  pub delivery_id : ℕ
  pub actor_staff_id : Option ℕ

pub record MailTables : Type 0 where
  pub ledger : Ledger
  pub tickets : List Ticket
  pub memberships : List Membership
  pub audit : List AuditRow

pub record MailRequest : Type 0 where
  pub delivery_id : ℕ
  pub expected_updated_at : ℕ
  pub actor : Option MailAccessActor

abbrev pub staff_of : Option MailAccessActor → Option ℕ
staff_of none = none
staff_of (some a) = a.staff_id

abbrev pub scope_or_refusal :
    Outcome MailRefusal MailDepartmentScope → Outcome OperatorError MailDepartmentScope
scope_or_refusal (err why) = err access_refused
scope_or_refusal (ok s) = ok s

-- `lockDeliveryQueueCaptureState`
unfoldable pub lock_delivery_queue_capture_state : Ledger → Option ℕ → Bool → Bool
unfolding queue_of
lock_delivery_queue_capture_state db none is_retired = not is_retired
lock_delivery_queue_capture_state db (some q) is_retired = elim (queue_of db (some q)) [
  | none ↦ false
  | some queue ↦
      if is_retired then is_some queue.capture_retired_at else is_none queue.capture_retired_at
]

abbrev pub is_seen : MailTables → MailDepartmentScope → ℕ → InboundDelivery → Bool
unfolding delivery_by_id_where_for_scope
is_seen db s id d = delivery_by_id_where_for_scope id db.tickets s d

abbrev pub in_state : DeliveryState → InboundDelivery → Outcome OperatorError InboundDelivery
in_state state d = require (same_state d.state state) delivery_not_found >> ok d

unfoldable pub find_seen :
    MailTables → MailDepartmentScope → ℕ → DeliveryState → Outcome OperatorError InboundDelivery
unfolding find? is_seen
find_seen db s id state =
    found (find? (is_seen db s id) db.ledger.deliveries) delivery_not_found >>= in_state state

abbrev pub replayed : ℕ → InboundDelivery → InboundDelivery
replayed now d = record d {
  state = accepted;
  attempts = 0;
  next_attempt_at = none;
  lease_owner = none;
  lease_expires_at = none;
  updated_at = now;
}

abbrev pub is_replayable : MailTables → MailDepartmentScope → MailRequest → InboundDelivery → Bool
unfolding normal_delivery_lifecycle_fence is_seen
is_replayable db s r d =
    is_seen db s r.delivery_id d
    && same_state d.state quarantined
    && d.updated_at == r.expected_updated_at
    && normal_delivery_lifecycle_fence none db.ledger d

-- A conditional update of one row with its audit row; nothing where no row or several match.
unfoldable pub update_one :
    ℕ
    → (InboundDelivery → Bool)
    → (InboundDelivery → InboundDelivery)
    → AuditRow
    → MailTables
    → Outcome OperatorError MailTables
unfolding count_where update_where
update_one now test f row db =
    require (count_where test db.ledger.deliveries == 1) delivery_changed
    >> ok (record db {
      ledger = record (db.ledger) { deliveries = update_where test f db.ledger.deliveries };
      audit = db.audit ++ row ∷ [];
    })

abbrev pub replay_row :
    ℕ
    → MailRequest
    → MailTables
    → MailDepartmentScope
    → InboundDelivery
    → Outcome OperatorError MailTables
unfolding lock_delivery_queue_capture_state update_one is_replayable
replay_row now r db s d =
    require (not d.truncated) truncated_mime
    >> (require (d.updated_at == r.expected_updated_at) delivery_changed
        >> (require (lock_delivery_queue_capture_state db.ledger d.queue_id false) retired_queue
            >> update_one now (is_replayable db s r) (replayed now)
                record {
                  action = quarantine_replay;
                  delivery_id = r.delivery_id;
                  actor_staff_id = staff_of r.actor;
                }
                db))

abbrev pub replay_in :
    ℕ → MailRequest → MailTables → MailDepartmentScope → Outcome OperatorError MailTables
unfolding find_seen replay_row
replay_in now r db s = find_seen db s r.delivery_id quarantined >>= replay_row now r db s

unfoldable pub replay_quarantined :
    Config → ℕ → MailRequest → MailTables → Outcome OperatorError MailTables
unfolding resolve_scope replay_in
replay_quarantined c now r db =
    require (not c.capture_only_enabled) capture_only_active
    >> (scope_or_refusal (resolve_scope db.memberships r.actor) >>= replay_in now r db)

-- `assertCapturePromotionEnabled` with `normalCanaryPromotionScope`
unfoldable pub assert_capture_promotion_enabled : Config → Outcome OperatorError Canary
unfolding normal_delivery_canary normal_delivery_canary_configured
assert_capture_promotion_enabled c =
    require (c.delivery_enabled && not c.capture_only_enabled) promotion_disabled
    >> (require (normal_delivery_canary_configured c) no_canary
        >> found (normal_delivery_canary c) incomplete_canary)

abbrev pub promoted : ℕ → InboundDelivery → InboundDelivery
promoted now d = record d {
  state = accepted;
  capture_promoted_at = some now;
  effective_owner_kind = unresolved;
  effective_owner_department_id = none;
  effective_owner_ticket_id = none;
  attempts = 0;
  next_attempt_at = none;
  lease_owner = none;
  lease_expires_at = none;
  updated_at = now;
}

abbrev pub is_promotable :
    MailTables → MailDepartmentScope → MailRequest → Canary → InboundDelivery → Bool
unfolding is_seen queue_of
is_promotable db s r k d =
    is_seen db s r.delivery_id d
    && is_option d.queue_id k.queue_id
    && same_state d.state captured
    && d.updated_at == r.expected_updated_at
    && is_retired_queue (queue_of db.ledger d.queue_id)

abbrev pub promote_row :
    ℕ
    → MailRequest
    → MailTables
    → Canary
    → MailDepartmentScope
    → InboundDelivery
    → Outcome OperatorError MailTables
unfolding lock_delivery_queue_capture_state update_one is_promotable
promote_row now r db k s d =
    require (is_option d.queue_id k.queue_id) other_queue
    >> (require (lock_delivery_queue_capture_state db.ledger d.queue_id true) unretired_queue
        >> (require (not d.truncated) truncated_mime
            >> (require (d.updated_at == r.expected_updated_at) delivery_changed
                >> update_one now (is_promotable db s r k) (promoted now)
                    record {
                      action = capture_promoted;
                      delivery_id = r.delivery_id;
                      actor_staff_id = staff_of r.actor;
                    }
                    db)))

abbrev pub promote_in :
    ℕ → MailRequest → MailTables → Canary → MailDepartmentScope → Outcome OperatorError MailTables
unfolding find_seen promote_row
promote_in now r db k s = find_seen db s r.delivery_id captured >>= promote_row now r db k s

abbrev pub promote_canary : ℕ → MailRequest → MailTables → Canary → Outcome OperatorError MailTables
unfolding resolve_scope promote_in
promote_canary now r db k =
    require (k.delivery_id == r.delivery_id) other_delivery
    >> (scope_or_refusal (resolve_scope db.memberships r.actor) >>= promote_in now r db k)

unfoldable pub promote_captured :
    Config → ℕ → MailRequest → MailTables → Outcome OperatorError MailTables
unfolding assert_capture_promotion_enabled promote_canary
promote_captured c now r db = assert_capture_promotion_enabled c >>= promote_canary now r db
