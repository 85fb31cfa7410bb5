-- ===== src/Inbound/Store.antt =====
-- The queues and the ledger of deliveries that apps/api/src/modules/mail/inbound.service.ts and
-- email-queue.service.ts share, and the gates of the inbound configuration.
use kayaka_style_hd.Prelude.{
  ℕ, Bool, true, false, not, ◌&&◌, ◌||◌, Option, none, some, List, ltb, leb, ◌==◌, if◌then◌else◌,
  is_some, count_where,
}

pub data DeliveryState : Type 0 where
  accepted processing retry processed skipped quarantined captured : DeliveryState

pub data EffectiveOwnerKind : Type 0 where
  unresolved receiving routed of_ticket : EffectiveOwnerKind

pub record EmailQueue : Type 0 where
  pub id : ℕ
  pub department_id : Option ℕ
  pub capture_retired_at : Option ℕ

pub record InboundDelivery : Type 0 where
  pub id : ℕ
  pub queue_id : Option ℕ
  pub state : DeliveryState
  pub attempts : ℕ
  pub next_attempt_at : Option ℕ
  pub lease_owner : Option ℕ
  pub lease_expires_at : Option ℕ
  pub truncated : Bool
  pub has_raw_mime : Bool
  pub raw_storage_key : Option ℕ
  pub capture_promoted_at : Option ℕ
  pub effective_owner_kind : EffectiveOwnerKind
  pub effective_owner_department_id : Option ℕ
  pub effective_owner_ticket_id : Option ℕ
  pub ticket_id : Option ℕ
  pub post_id : Option ℕ
  pub processed_at : Option ℕ
  pub updated_at : ℕ

pub record Ledger : Type 0 where
  pub queues : List EmailQueue
  pub deliveries : List InboundDelivery

-- The settings; a number that is not a positive integer is `none`.
pub record Config : Type 0 where
  pub delivery_enabled : Bool
  pub capture_only_enabled : Bool
  pub capture_queue_id : Option ℕ
  pub capture_max_messages : Option ℕ
  pub normal_canary_queue_id : Option ℕ
  pub normal_canary_delivery_id : Option ℕ
  pub has_encryption_key : Bool
  pub max_attempts : ℕ

pub record Canary : Type 0 where
  pub queue_id : ℕ
  pub delivery_id : ℕ

abbrev pub same_state : DeliveryState → DeliveryState → Bool
same_state accepted accepted = true
same_state processing processing = true
same_state retry retry = true
same_state processed processed = true
same_state skipped skipped = true
same_state quarantined quarantined = true
same_state captured captured = true
same_state _ _ = false

abbrev pub is_option : Option ℕ → ℕ → Bool
is_option none n = false
is_option (some m) n = m == n

-- `captureMaxMessages`: exactly one, or a closed gate.
unfoldable pub capture_max_messages : Config → ℕ
capture_max_messages c = if is_option c.capture_max_messages 1 then 1 else 0

unfoldable pub normal_delivery_canary_configured : Config → Bool
normal_delivery_canary_configured c =
    is_some c.normal_canary_queue_id || is_some c.normal_canary_delivery_id

abbrev pub both : Option ℕ → Option ℕ → Option Canary
both (some q) (some d) = some record { queue_id = q; delivery_id = d }
both _ _ = none

unfoldable pub normal_delivery_canary : Config → Option Canary
normal_delivery_canary c = both c.normal_canary_queue_id c.normal_canary_delivery_id

unfoldable pub active_inbound_queue_id : Config → Option ℕ
active_inbound_queue_id c = if c.capture_only_enabled then c.capture_queue_id else none

unfoldable pub inbound_acceptance_enabled : Config → Bool
unfolding capture_max_messages
inbound_acceptance_enabled c =
    c.delivery_enabled
    || c.capture_only_enabled
      && is_some c.capture_queue_id
      && c.has_encryption_key
      && capture_max_messages c == 1

unfoldable pub inbound_processing_enabled : Config → Bool
inbound_processing_enabled c = c.delivery_enabled && not c.capture_only_enabled

unfoldable pub accepts_queue : Config → ℕ → Bool
unfolding normal_delivery_canary_configured
accepts_queue c queue_id =
    if c.capture_only_enabled
    then is_option c.capture_queue_id queue_id
    else not (normal_delivery_canary_configured c)

abbrev pub is_held : ℕ → InboundDelivery → Bool
is_held queue_id d =
    is_option d.queue_id queue_id && (same_state d.state captured || same_state d.state quarantined)

-- `assertCaptureCapacity` passes.
unfoldable pub has_capture_capacity : Config → ℕ → Ledger → Bool
unfolding capture_max_messages count_where
has_capture_capacity c queue_id db =
    not c.capture_only_enabled
    || leb 1 (capture_max_messages c)
      && ltb (count_where (is_held queue_id) db.deliveries) (capture_max_messages c)
