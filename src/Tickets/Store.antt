-- ===== src/Tickets/Store.antt =====
-- The rows that the ticket services of apps/api/src/modules/tickets read and write, as far as the
-- modelled operations use them.
use kayaka_style_hd.Prelude.{
  ◌≡◌, ℕ, Bool, Option, none, some, List, [], ◌∷◌, ◌==◌, find?, drop_where,
}
pub use kayaka_style_hd.Prelude.{
  Outcome, ok, err, ◌>>=◌, ◌>>◌, require, found, bind-eq-ok, require-eq-ok, ok-injective,
}

pub record Ticket : Type 0 where
  pub id : ℕ
  pub department_id : ℕ
  pub status_id : ℕ
  pub priority_id : ℕ
  pub type_id : Option ℕ
  pub owner_staff_id : Option ℕ
  pub sla_plan_id : Option ℕ
  pub is_resolved : Bool
  pub resolved_at : Option ℕ
  pub reopened_at : Option ℕ
  pub was_reopened : Bool
  pub due_at : Option ℕ
  pub resolution_due_at : Option ℕ
  pub first_response_at : Option ℕ
  pub is_escalated : Bool
  pub escalation_level : ℕ
  pub merged_into_id : Option ℕ
  pub total_replies : ℕ
  pub last_activity_at : ℕ

-- A DepartmentStaff row.
pub record Membership : Type 0 where
  pub department_id : ℕ
  pub staff_id : ℕ

-- A Staff row with its group's `isAdmin`.
pub record Agent : Type 0 where
  pub id : ℕ
  pub is_enabled : Bool
  pub is_admin : Bool

-- A row that hangs on a ticket: a post, a note, an attachment, a time entry or a follow-up. Only
-- an attachment may have no ticket.
pub record Child : Type 0 where
  pub id : ℕ
  pub ticket_id : Option ℕ

pub record Watcher : Type 0 where
  pub ticket_id : ℕ
  pub staff_id : ℕ

pub record Db : Type 0 where
  pub tickets : List Ticket
  pub memberships : List Membership
  pub agents : List Agent
  pub posts : List Child
  pub notes : List Child
  pub attachments : List Child
  pub time_entries : List Child
  pub follow_ups : List Child
  pub watchers : List Watcher

-- The authenticated staff principal, as far as the policy looks at it.
pub record Actor : Type 0 where
  pub staff_id : ℕ
  pub is_admin : Bool

pub data Denial : Type 0 where
  department_not_found ticket_not_found tickets_not_found : Denial
  attachment_not_found time_entry_not_found follow_up_not_found : Denial
  staff_not_found staff_disabled assignee_out_of_department : Denial
  status_not_found merge_into_itself source_already_merged target_already_merged : Denial

abbrev pub Result {ℓ} : Type ℓ → Type ℓ
Result A = Outcome Denial A

abbrev pub ticket_by_id : ℕ → Db → Option Ticket
ticket_by_id id db = find? (λ t. t.id == id) db.tickets

-- `[...new Set(xs)]`: the first occurrence of each number, in order.
unfoldable pub dedup : List ℕ → List ℕ
unfolding drop_where
dedup [] = []
dedup (x ∷ xs) = x ∷ drop_where (λ y. y == x) (dedup xs)

pub found-eq-ok {ℓ} :
    {A : Type ℓ} (o : Option A) (e : Denial) {a : A} → found o e ≡ ok a → o ≡ some a
found-eq-ok none e h = absurd (cc)
found-eq-ok (some a) e h = cc
