-- ===== src/Sla/Store.antt =====
-- The rows that apps/api/src/modules/sla/sla.service.ts reads and writes, and its transactions. An
-- abort leaves the tables as they were. Identifiers are never 0, which the source reads as absent.
use kayaka_style_hd.Prelude.{ℕ, Bool, true, false, ◌&&◌, Option, none, some, List, ltb, ◌==◌}
pub use kayaka_style_hd.Prelude.{Outcome, ok, err, ◌>>=◌, bind-eq-ok, ok-injective}
use kayaka_style_hd.Tickets.Store.{Ticket}

pub data BreachType : Type 0 where
  first_response resolution : BreachType

pub data ActionType : Type 0 where
  notify change_priority assign add_note mark_escalated : ActionType

-- A field is absent where its JSON is missing, and the note also where it is empty.
pub record EscalationAction : Type 0 where
  pub action_type : ActionType
  pub staff_id : Option ℕ
  pub priority_id : Option ℕ
  pub note : Option ℕ

pub record EscalationRule : Type 0 where
  pub id : ℕ
  pub sla_plan_id : ℕ
  pub target_type : BreachType
  pub threshold_seconds : ℕ
  pub is_enabled : Bool
  pub actions : List EscalationAction

-- A Staff row with its group's `isAdmin` and its departments; `email` is absent when it is empty.
pub record Recipient : Type 0 where
  pub id : ℕ
  pub email : Option ℕ
  pub is_enabled : Bool
  pub is_admin : Bool
  pub departments : List ℕ

-- The source key is made of the ticket and the type of the breach.
pub record SlaEscalationEvent : Type 0 where
  pub ticket_id : ℕ
  pub breach_type : BreachType

-- An internal notification: the fields of its idempotency key and its address.
pub record Command : Type 0 where
  pub event : SlaEscalationEvent
  pub rule_id : ℕ
  pub action_index : ℕ
  pub staff_id : ℕ
  pub to : ℕ

pub record TicketNote : Type 0 where
  pub ticket_id : ℕ
  pub rule_id : ℕ
  pub contents : ℕ

pub record SlaDb : Type 0 where
  pub tickets : List Ticket
  pub rules : List EscalationRule
  pub staff : List Recipient
  pub events : List SlaEscalationEvent
  pub commands : List Command
  pub notes : List TicketNote

-- Why a transaction rolls back: a stale scan, the unique source key, or any other error.
pub data Abort : Type 0 where
  stale unique_violation unavailable_assignee broken_template conflicting_command : Abort

abbrev pub Tx {ℓ} : Type ℓ → Type ℓ
Tx A = Outcome Abort A

abbrev pub same_type : BreachType → BreachType → Bool
same_type first_response first_response = true
same_type first_response resolution = false
same_type resolution first_response = false
same_type resolution resolution = true

abbrev pub has_key : ℕ → BreachType → SlaEscalationEvent → Bool
has_key id ty e = e.ticket_id == id && same_type e.breach_type ty

abbrev pub is_before : Option ℕ → ℕ → Bool
is_before none now = false
is_before (some t) now = ltb t now
