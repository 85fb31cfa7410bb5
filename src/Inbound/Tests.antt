-- ===== src/Inbound/Tests.antt =====
-- The theorems on the inbound ledger at one delivery, and those on routes, claims and patterns.
use kayaka_style_hd.Prelude.{
  ok, ℕ, ◌+◌, ◌≤◌, ◌≡◌, refl, true, false, not, ◌||◌, Option, none, some, List, [], ◌∷◌, arith,
  length, any, find?, count_where,
}
use kayaka_style_hd.Common.Email.{Text}
use kayaka_style_hd.Inbound.Store.{
  normal_delivery_canary_configured, inbound_processing_enabled, DeliveryState, accepted, processed,
  quarantined, captured, routed, EmailQueue, InboundDelivery, Ledger, Config,
}
use kayaka_style_hd.Inbound.Access.{
  resolve_scope, delivery_where_for_scope, MailAccessActor, MailDepartmentScope,
}
use kayaka_style_hd.Inbound.Scopes.{
  owner_department, is_assigned, delivery_where_for_scope-resolve_scope,
}
use kayaka_style_hd.Inbound.Claim.{
  queue_of, lock_allows, claimed, start_processing, settlement, settled_row, settle, heartbeat,
  process_delivery, Work, routed_to, fails,
}
use kayaka_style_hd.Inbound.Operators.{
  replayed, promoted, quarantine_replay, capture_promoted, MailTables, MailRequest,
}
use kayaka_style_hd.Inbound.Workers.{
  has_id, is, finishing, on_ledger, Hold, System, accept, start, finish, Reach, begin, step,
}
use kayaka_style_hd.Inbound.Once.{finished_once}
use kayaka_style_hd.Inbound.Ends.{UniqueIds}
use kayaka_style_hd.Inbound.Rounds.{attempts_bounded, stop, round}
use kayaka_style_hd.Inbound.Patterns.{
  is_refused, is_quantifier, is_unbounded, starts_at_line, is_safe_rule_regex, operators,
}
use kayaka_style_hd.Inbound.SafePatterns.{is_safe_rule_regex-operators}
use kayaka_style_hd.Inbound.Identity.{claim_real_message, MessageClaim, ClaimRequest, winner}
use kayaka_style_hd.Inbound.OneWinner.{one_winner, now}
use kayaka_style_hd.Inbound.Routing.{
  resolve_inbound_route, RoutingSnapshotEntry, DeliveryRoutingContext,
}
use kayaka_style_hd.Inbound.Winner.{Routed, resolve_inbound_route-Routed}

abbrev normal : Config
normal = record {
  delivery_enabled = true;
  capture_only_enabled = false;
  capture_queue_id = none;
  capture_max_messages = none;
  normal_canary_queue_id = none;
  normal_canary_delivery_id = none;
  has_encryption_key = true;
  max_attempts = 5;
}

abbrev in_state_of : DeliveryState → Option ℕ → InboundDelivery
in_state_of state queue = record {
  id = 6;
  queue_id = queue;
  state = state;
  attempts = 0;
  next_attempt_at = none;
  lease_owner = none;
  lease_expires_at = none;
  truncated = false;
  has_raw_mime = true;
  raw_storage_key = none;
  capture_promoted_at = none;
  effective_owner_kind = routed;
  effective_owner_department_id = some 2;
  effective_owner_ticket_id = none;
  ticket_id = none;
  post_id = none;
  processed_at = none;
  updated_at = 50;
}

abbrev message : InboundDelivery
message = in_state_of accepted none

abbrev tables_of : List EmailQueue → List InboundDelivery → MailTables
tables_of queues deliveries = record {
  ledger = record { queues = queues; deliveries = deliveries };
  tickets = [];
  memberships = record { department_id = 2; staff_id = 8 } ∷ [];
  audit = [];
}

abbrev begun : System
begun = record { tables = tables_of [] []; holds = []; finished = [] }

abbrev arrived : System
arrived = record begun { tables = tables_of [] (message ∷ []) }

abbrev held : Hold
held = record { delivery = claimed 100 3 message; token = 3 }

abbrev started : System
unfolding start_processing
started = record arrived {
  tables = record (arrived.tables) {
    ledger = (start_processing normal 100 3 6 arrived.tables.ledger).0;
  };
  holds = held ∷ [];
}

abbrev ticketed : Work
ticketed = routed_to processed (some 4) (some 5)

abbrev stored : System
unfolding settle settlement start_processing count_where
stored = record {
  tables = record (started.tables) {
    ledger = settle 200 6 3 (settlement normal 200 held.delivery ticketed) started.tables.ledger;
  };
  holds = [];
  finished =
      finishing 6 3 (settlement normal 200 held.delivery ticketed) started.tables.ledger
        started.finished;
}

arrived-Reach : Reach normal arrived
unfolding count_where
arrived-Reach = step (begin (tables_of [] []) refl) (accept begun message refl refl refl)

stored-Reach : Reach normal stored
unfolding start_processing settle settlement count_where
stored-Reach =
    step (step arrived-Reach (start arrived 100 3 6 (claimed 100 3 message) refl))
      (finish started 200 [] [] held ticketed refl refl)

finished_once_example : count_where (is 6) stored.finished ≤ 1
finished_once_example = finished_once normal stored-Reach 6

abbrev done_row : InboundDelivery
unfolding settlement
done_row = settled_row 200 (settlement normal 200 held.delivery ticketed) (claimed 100 3 message)

abbrev beaten : System
unfolding heartbeat settle settlement start_processing count_where
beaten = on_ledger stored (heartbeat 300 6 3 stored.tables.ledger)

message-UniqueIds : UniqueIds arrived.tables.ledger
unfolding count_where
message-UniqueIds id = ground arith

message-found : find? (has_id 6) arrived.tables.ledger.deliveries ≡ some message
unfolding find?
message-found = refl

normal-on : inbound_processing_enabled normal ≡ true
unfolding inbound_processing_enabled
normal-on = refl

normal-free : normal_delivery_canary_configured normal ≡ false
unfolding normal_delivery_canary_configured
normal-free = refl

message-open : lock_allows none arrived.tables.ledger (some message) ≡ true
unfolding queue_of
message-open = refl

abbrev worked : Ledger
unfolding process_delivery
worked = process_delivery normal 100 200 3 6 (fails false false) arrived.tables.ledger

attempts_bounded_example : message.attempts + 1 ≤ normal.max_attempts
unfolding worked process_delivery
attempts_bounded_example =
    attempts_bounded normal 1 arrived.tables.ledger worked message normal-on normal-free
      message-UniqueIds message-found message-open (omega arith)
      (round 0 100 200 3 (fails false false) arrived.tables.ledger worked message tt message-found
        refl (stop worked))

abbrev operator : MailAccessActor
operator = record { staff_id = some 8; is_admin = some false }

abbrev request : MailRequest
request = record { delivery_id = 6; expected_updated_at = 50; actor = some operator }

abbrev set_aside : MailTables
set_aside = tables_of [] (in_state_of quarantined none ∷ [])

abbrev replayed_tables : MailTables
replayed_tables = record set_aside {
  ledger = record (set_aside.ledger) {
    deliveries = replayed 90 (in_state_of quarantined none) ∷ [];
  };
  audit = record { action = quarantine_replay; delivery_id = 6; actor_staff_id = some 8 } ∷ [];
}

abbrev attended : Config
attended = record normal { normal_canary_queue_id = some 1; normal_canary_delivery_id = some 6 }

abbrev retired : EmailQueue
retired = record { id = 1; department_id = some 2; capture_retired_at = some 40 }

abbrev taken : MailTables
taken = tables_of (retired ∷ []) (in_state_of captured (some 1) ∷ [])

abbrev promoted_tables : MailTables
promoted_tables = record taken {
  ledger = record (taken.ledger) { deliveries = promoted 90 (in_state_of captured (some 1)) ∷ [] };
  audit = record { action = capture_promoted; delivery_id = 6; actor_staff_id = some 8 } ∷ [];
}

delivery_where_for_scope-resolve_scope_example :
    (s : MailDepartmentScope) × (resolve_scope set_aside.memberships
        (some record { staff_id = some 8; is_admin = some false })
      ≡ ok s)
    × (delivery_where_for_scope [] s message
        ≡ (false || is_assigned set_aside.memberships 8 (owner_department [] message)))
delivery_where_for_scope-resolve_scope_example =
    delivery_where_for_scope-resolve_scope set_aside.memberships [] 8 false message (omega arith)

-- `^a+`
abbrev pattern_text : Text
pattern_text = 94 ∷ 97 ∷ 43 ∷ []

pattern-safe : is_safe_rule_regex pattern_text ≡ true
unfolding is_safe_rule_regex
pattern-safe = refl

is_safe_rule_regex-operators_example :
    (length pattern_text ≤ 128)
    × (any is_refused (operators false false pattern_text) ≡ false)
    × (count_where is_quantifier (operators false false pattern_text) ≤ 1)
    × ((not (any is_unbounded (operators false false pattern_text)) || starts_at_line pattern_text)
        ≡ true)
is_safe_rule_regex-operators_example = is_safe_rule_regex-operators pattern_text pattern-safe

abbrev asked : ClaimRequest
asked = record {
  delivery_id = 6;
  message_id_hash = 109 ∷ [];
  semantic_hash = 115 ∷ [];
  is_lease_held = true;
}

abbrev claimed_row : MessageClaim
claimed_row = record {
  message_id_hash = 109 ∷ [];
  semantic_hash = some (115 ∷ []);
  semantic_hash_version = 1;
  winner_delivery_id = 6;
  ticket_id = none;
  post_id = none;
}

first_claim : claim_real_message asked [] ≡ ok (claimed_row ∷ [], winner)
unfolding claim_real_message
first_claim = refl

second_claim : claim_real_message asked (claimed_row ∷ []) ≡ ok (claimed_row ∷ [], winner)
unfolding claim_real_message
second_claim = refl

one_winner_example : asked.delivery_id ≡ asked.delivery_id
one_winner_example =
    one_winner asked asked [] (claimed_row ∷ []) (claimed_row ∷ []) (claimed_row ∷ []) first_claim
      now second_claim refl

abbrev sales : RoutingSnapshotEntry
sales = record {
  id = 2;
  email_address = 115 ∷ [];
  department_id = some 2;
  routing_priority = 5;
  send_autoresponder = true;
}

abbrev support : RoutingSnapshotEntry
support = record sales { id = 3; routing_priority = 1 }

abbrev arrival : DeliveryRoutingContext
arrival = record {
  queue_id = some 2;
  routed_queue_id = none;
  routed_department_id = none;
  envelope_to = some (115 ∷ []);
  send_autoresponder = none;
  routing_snapshot = sales ∷ support ∷ [];
}

support-wins : (resolve_inbound_route (λ t. t) [] arrival none).queue_id ≡ some 3
unfolding resolve_inbound_route
support-wins = refl

resolve_inbound_route-Routed_example :
    Routed (λ t. t) [] arrival none (resolve_inbound_route (λ t. t) [] arrival none)
resolve_inbound_route-Routed_example = resolve_inbound_route-Routed (λ t. t) [] arrival none
