-- ===== src/Inbound/Claim.antt =====
-- The claim, the lease and the settlement of a delivery: `normalDeliveryLifecycleFence`,
-- `lockDeliveryQueueForNormalProcessing`, `runDrainDeliveries` and `processDeliveryClaimed` of
-- apps/api/src/modules/mail/inbound.service.ts. Parsing and routing give their result as an argument.
use kayaka_style_hd.Prelude.{
  ℕ, ◌+◌, ◌-◌, ◌*◌, Bool, true, false, not, ◌&&◌, ◌||◌, Option, none, some, List, [], ◌∷◌, map, ltb,
  leb, ◌==◌, if◌then◌else◌, is_none, is_some, take, find?, count_where, update_where, keep,
}
use Prim.Native.Nat.{◌^◌}
use kayaka_style_hd.Inbound.Store.{
  same_state, is_option, normal_delivery_canary_configured, normal_delivery_canary,
  inbound_processing_enabled, DeliveryState, accepted, processing, retry, quarantined, unresolved,
  of_ticket, EmailQueue, InboundDelivery, Ledger, Config, Canary,
}

-- `InboundMailService.LEASE_MS`
abbrev pub lease_ms : ℕ
lease_ms = 300_000

abbrev pub is_retired_queue : Option EmailQueue → Bool
is_retired_queue none = false
is_retired_queue (some q) = is_some q.capture_retired_at

unfoldable pub queue_of : Ledger → Option ℕ → Option EmailQueue
unfolding find?
queue_of db none = none
queue_of db (some id) = find? (λ q. q.id == id) db.queues

unfoldable pub normal_delivery_lifecycle_fence : Option Canary → Ledger → InboundDelivery → Bool
unfolding find? queue_of
normal_delivery_lifecycle_fence none db d = not (is_retired_queue (queue_of db d.queue_id))
normal_delivery_lifecycle_fence (some k) db d = is_retired_queue (queue_of db d.queue_id)

-- The further conditions of an attended run: its queue, and a promoted row.
abbrev pub is_canary_row : Option Canary → InboundDelivery → Bool
is_canary_row none d = true
is_canary_row (some k) d = is_option d.queue_id k.queue_id && is_some d.capture_promoted_at

abbrev pub is_canary_id : Option Canary → ℕ → Bool
is_canary_id none id = true
is_canary_id (some k) id = id == k.delivery_id

abbrev pub at_or_before : Option ℕ → ℕ → Bool
at_or_before none now = true
at_or_before (some t) now = leb t now

abbrev pub is_lease_expired : Option ℕ → ℕ → Bool
is_lease_expired none now = false
is_lease_expired (some t) now = ltb t now

abbrev pub is_due : ℕ → InboundDelivery → Bool
is_due now d =
    same_state d.state processing && is_lease_expired d.lease_expires_at now
    || same_state d.state accepted
    || same_state d.state retry && at_or_before d.next_attempt_at now

-- What the drain selects; an accepted row waits there for its `nextAttemptAt` as well.
abbrev pub is_drainable : ℕ → InboundDelivery → Bool
is_drainable now d =
    same_state d.state processing && is_lease_expired d.lease_expires_at now
    || (same_state d.state accepted || same_state d.state retry)
      && at_or_before d.next_attempt_at now

unfoldable pub insert_delivery : InboundDelivery → List InboundDelivery → List InboundDelivery
insert_delivery d [] = d ∷ []
insert_delivery d (x ∷ xs) =
    let rest = insert_delivery d xs in if leb d.id x.id then d ∷ x ∷ xs else x ∷ rest

unfoldable pub sort_deliveries : List InboundDelivery → List InboundDelivery
unfolding insert_delivery
sort_deliveries [] = []
sort_deliveries (d ∷ ds) = insert_delivery d (sort_deliveries ds)

abbrev pub is_incomplete : Config → Bool
unfolding normal_delivery_canary_configured normal_delivery_canary
is_incomplete c = normal_delivery_canary_configured c && is_none (normal_delivery_canary c)

-- The ids that one cycle of the drain hands to `processDelivery`, in their order.
unfoldable pub run_drain_deliveries : Config → ℕ → Ledger → List ℕ
unfolding inbound_processing_enabled normal_delivery_canary normal_delivery_lifecycle_fence keep
    sort_deliveries is_incomplete
run_drain_deliveries c now db =
    let canary = normal_delivery_canary c in
    if not (inbound_processing_enabled c) || is_incomplete c
    then []
    else map (λ d. d.id)
        (take 50 (
          sort_deliveries (
            keep
              (λ d.
                normal_delivery_lifecycle_fence canary db d
                && is_canary_id canary d.id
                && is_canary_row canary d
                && is_drainable now d)
              db.deliveries)))

abbrev pub queue_allows : Option Canary → Option EmailQueue → Bool
queue_allows _ none = false
queue_allows none (some q) = is_none q.capture_retired_at
queue_allows (some k) (some q) = is_some q.capture_retired_at

abbrev pub is_canary_queue : Option Canary → ℕ → Bool
is_canary_queue none q = true
is_canary_queue (some k) q = q == k.queue_id

-- A row without a queue is an old one, for normal delivery only.
abbrev pub queue_lock_allows : Option Canary → Ledger → Option ℕ → Bool
unfolding queue_of
queue_lock_allows canary db none = is_none canary
queue_lock_allows canary db (some q) =
    is_canary_queue canary q && queue_allows canary (queue_of db (some q))

abbrev pub lock_allows : Option Canary → Ledger → Option InboundDelivery → Bool
unfolding queue_of
lock_allows canary db none = false
lock_allows canary db (some d) = queue_lock_allows canary db d.queue_id

unfoldable pub lock_delivery_queue_for_normal_processing : Option Canary → ℕ → Ledger → Bool
unfolding find? queue_of
lock_delivery_queue_for_normal_processing canary id db =
    lock_allows canary db (find? (λ d. d.id == id) db.deliveries)

abbrev pub is_claimable : Option Canary → ℕ → ℕ → Ledger → InboundDelivery → Bool
unfolding normal_delivery_lifecycle_fence
is_claimable canary now id db d =
    d.id == id
    && normal_delivery_lifecycle_fence canary db d
    && is_canary_row canary d
    && is_due now d

abbrev pub claimed : ℕ → ℕ → InboundDelivery → InboundDelivery
claimed now token d = record d {
  state = processing;
  lease_owner = some token;
  lease_expires_at = some (now + lease_ms);
  attempts = d.attempts + 1;
  updated_at = now;
}

unfoldable pub claim : Option Canary → ℕ → ℕ → ℕ → Ledger → Ledger × ℕ
unfolding lock_delivery_queue_for_normal_processing update_where count_where is_claimable
claim canary now token id db =
    if lock_delivery_queue_for_normal_processing canary id db
    then (
      record db {
        deliveries = update_where (is_claimable canary now id db) (claimed now token) db.deliveries;
      },
      count_where (is_claimable canary now id db) db.deliveries,
    )
    else (db, 0)

abbrev pub after_claim : ℕ → Ledger × ℕ → Ledger × Option InboundDelivery
unfolding find?
after_claim id (db, n) = (db, if n == 0 then none else find? (λ d. d.id == id) db.deliveries)

-- `processDelivery` up to the work on the message.
unfoldable pub start_processing : Config → ℕ → ℕ → ℕ → Ledger → Ledger × Option InboundDelivery
unfolding inbound_processing_enabled normal_delivery_canary claim is_incomplete after_claim
start_processing c now token id db =
    let canary = normal_delivery_canary c in
    if inbound_processing_enabled c && not (is_incomplete c) && is_canary_id canary id
    then after_claim id (claim canary now token id db)
    else (db, none)

-- What reading the raw message from the object store gives, and what parsing and routing give.
pub data Work : Type 0 where
  storage_unavailable : Work
  routed_to : (state : DeliveryState) (ticket_id post_id : Option ℕ) → Work
  fails : (is_permanent is_owner_unresolved : Bool) → Work

pub data Settlement : Type 0 where
  to_quarantine : (is_owner_unresolved : Bool) → Settlement
  to_retry : (at : ℕ) (is_owner_unresolved : Bool) → Settlement
  to_finish : (state : DeliveryState) (ticket_id post_id : Option ℕ) → Settlement

unfoldable pub backoff : ℕ → ℕ → ℕ
backoff now attempts = now + 60_000 * 2 ^ (attempts - 1)

abbrev pub settle_work : Config → ℕ → ℕ → Work → Settlement
unfolding backoff
settle_work c now attempts storage_unavailable =
    if leb c.max_attempts attempts
    then to_quarantine false
    else to_retry (backoff now attempts) false
settle_work c now attempts (routed_to state ticket post) = to_finish state ticket post
settle_work c now attempts (fails permanent unresolved_owner) =
    if permanent || leb c.max_attempts attempts
    then to_quarantine unresolved_owner
    else to_retry (backoff now attempts) unresolved_owner

-- What a claimed row's worker decides.
unfoldable pub settlement : Config → ℕ → InboundDelivery → Work → Settlement
unfolding settle_work
settlement c now d w =
    if d.truncated
      || ltb c.max_attempts d.attempts
      || not d.has_raw_mime && is_none d.raw_storage_key
    then to_quarantine false
    else settle_work c now d.attempts w

abbrev pub fail_closed : Bool → InboundDelivery → InboundDelivery
fail_closed false d = d
fail_closed true d = record d {
  effective_owner_kind = unresolved;
  effective_owner_department_id = none;
  effective_owner_ticket_id = none;
}

abbrev pub owned_by_ticket : Option ℕ → InboundDelivery → InboundDelivery
owned_by_ticket none d = d
owned_by_ticket (some t) d = record d {
  effective_owner_kind = of_ticket;
  effective_owner_ticket_id = some t;
}

abbrev pub released : ℕ → InboundDelivery → InboundDelivery
released now d = record d { lease_owner = none; lease_expires_at = none; updated_at = now }

abbrev pub settled_row : ℕ → Settlement → InboundDelivery → InboundDelivery
settled_row now (to_quarantine u) d = record (released now (fail_closed u d)) {
  state = quarantined;
}
settled_row now (to_retry t u) d = record (released now (fail_closed u d)) {
  state = retry;
  next_attempt_at = some t;
}
settled_row now (to_finish state ticket post) d = record (released now (owned_by_ticket ticket d)) {
  state = state;
  ticket_id = ticket;
  post_id = post;
  processed_at = some now;
}

abbrev pub is_leased : ℕ → ℕ → InboundDelivery → Bool
is_leased id token d = d.id == id && is_option d.lease_owner token && same_state d.state processing

-- The settlement of a claim: nothing where the lease is lost.
unfoldable pub settle : ℕ → ℕ → ℕ → Settlement → Ledger → Ledger
unfolding update_where
settle now id token s db = record db {
  deliveries = update_where (is_leased id token) (settled_row now s) db.deliveries;
}

unfoldable pub heartbeat : ℕ → ℕ → ℕ → Ledger → Ledger
unfolding update_where
heartbeat now id token db = record db {
  deliveries =
      update_where (is_leased id token)
        (λ d. record d { lease_expires_at = some (now + lease_ms); updated_at = now })
        db.deliveries;
}

abbrev pub settle_started : Config → ℕ → ℕ → Work → Ledger × Option InboundDelivery → Ledger
unfolding settlement settle
settle_started c now token w (db, none) = db
settle_started c now token w (db, some d) = settle now d.id token (settlement c now d w) db

-- `processDelivery` with no other worker between its parts.
unfoldable pub process_delivery : Config → ℕ → ℕ → ℕ → ℕ → Work → Ledger → Ledger
unfolding start_processing settle_started
process_delivery c now later token id w db =
    settle_started c later token w (start_processing c now token id db)
