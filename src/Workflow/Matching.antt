-- ===== src/Workflow/Matching.antt =====
-- apps/api/src/modules/workflow/workflow-matching.ts: the criteria of a workflow rule, the plan of its
-- scalar actions, and the projection of the ordered rules; and the loop of workflow.executor.ts.
use Prim.Native.String.{String}
use text.Mathlib.Text.{◌==◌ as str_eq}
use kayaka_style_hd.Prelude.{
  ℕ, Bool, true, false, not, ◌&&◌, ◌||◌, Option, none, some, List, [], ◌∷◌, ◌++◌, leb,
  if◌then◌else◌, all,
}

-- A JSON value, as far as the code looks into it: a non-negative integer, a text, null, or anything
-- else.
pub data Json : Type 0 where
  null : Json
  number : ℕ → Json
  string_value : String → Json
  other : ℕ → Json

-- A ticket as the JavaScript object it is: named values, the first of a name counts.
abbrev pub Fields : Type 0
Fields = List (String × Json)

unfoldable pub value_of : String → Fields → Option Json
value_of name [] = none
value_of name (f ∷ fs) = let rest = value_of name fs in if str_eq f.0 name then some f.1 else rest

-- What the code calls of the JavaScript runtime: `String(x).toLowerCase()`, the tests of texts,
-- the comparisons of a number with `Number(x)`, and the test of digits that guards an identifier.
pub record Runtime : Type 0 where
  pub lower_text : Json → String
  pub includes : String → String → Bool
  pub starts_with : String → String → Bool
  pub ends_with : String → String → Bool
  pub above : ℕ → Json → Bool
  pub below : ℕ → Json → Bool
  pub parse_digits : String → Option ℕ

pub record Criterion : Type 0 where
  pub field : String
  pub op : String
  pub value : Option Json

-- `undefined` is `none`.
pub record WorkflowAction : Type 0 where
  pub action_type : String
  pub value : Option Json
  pub department_id : Option Json
  pub owner_staff_id : Option Json
  pub status_id : Option Json
  pub priority_id : Option Json
  pub type_id : Option Json

-- `criteria` and `actions` are absent where the stored JSON is no array; an element that is no
-- action is `none`.
pub record Workflow : Type 0 where
  pub id : ℕ
  pub criteria : Option (List Criterion)
  pub actions : Option (List (Option WorkflowAction))
  pub is_enabled : Bool
  pub sort_order : ℕ

pub record WorkflowTicketMutation : Type 0 where
  pub department_id : Option ℕ
  pub owner_staff_id : Option (Option ℕ)
  pub status_id : Option ℕ
  pub priority_id : Option ℕ
  pub type_id : Option (Option ℕ)

pub record WorkflowActionPlan : Type 0 where
  pub ticket_mutation : WorkflowTicketMutation
  pub assigned_owner_id : Option ℕ
  pub skipped_owner_ids : List ℕ

abbrev pub no_mutation : WorkflowTicketMutation
no_mutation = record {
  department_id = none;
  owner_staff_id = none;
  status_id = none;
  priority_id = none;
  type_id = none;
}

-- `x ?? y`
abbrev pub coalesce : Option Json → Option Json → Option Json
coalesce none y = y
coalesce (some null) y = y
coalesce (some x) y = some x

-- `x !== undefined ? x : y`
abbrev pub defined_or : Option Json → Option Json → Option Json
defined_or none y = y
defined_or (some x) y = some x

abbrev pub max_safe_integer : ℕ
max_safe_integer = 9_007_199_254_740_991

abbrev pub positive_safe : Option ℕ → Option ℕ
positive_safe none = none
positive_safe (some n) = if leb 1 n && leb n max_safe_integer then some n else none

abbrev pub is_null : Option Json → Bool
is_null (some null) = true
is_null _ = false

module _ (js : Runtime) where
  abbrev pub parsed : Option Json → Option ℕ
  parsed (some (number n)) = some n
  parsed (some (string_value s)) = js.parse_digits s
  parsed _ = none

  unfoldable pub positive_integer : Option Json → Option ℕ
  positive_integer v = positive_safe (parsed v)

  -- `String(x ?? '').toLowerCase()`
  abbrev pub compared : Option Json → String
  compared none = ""
  compared (some null) = ""
  compared (some x) = js.lower_text x

  -- `test n v` for a number `n` and a value that is there; `Number(undefined)` compares with nothing.
  abbrev pub number_test : (ℕ → Json → Bool) → Option Json → Option Json → Bool
  number_test test (some (number n)) (some v) = test n v
  number_test test _ _ = false

  unfoldable pub criterion_holds : Fields → Criterion → Bool
  unfolding value_of
  criterion_holds ticket c =
      let raw = value_of c.field ticket in
      let field_value = compared raw in
      let criterion_value = compared c.value in
      if str_eq c.op "eq" || str_eq c.op "is"
      then str_eq field_value criterion_value
      else if str_eq c.op "neq" || str_eq c.op "is_not"
      then not (str_eq field_value criterion_value)
      else if str_eq c.op "contains"
      then js.includes field_value criterion_value
      else if str_eq c.op "not_contains"
      then not (js.includes field_value criterion_value)
      else if str_eq c.op "starts_with"
      then js.starts_with field_value criterion_value
      else if str_eq c.op "ends_with"
      then js.ends_with field_value criterion_value
      else if str_eq c.op "gt"
      then number_test js.above raw c.value
      else if str_eq c.op "lt"
      then number_test js.below raw c.value
      else false

  -- No criteria, or no array of them, match every ticket.
  unfoldable pub workflow_matches_ticket : Fields → Option (List Criterion) → Bool
  unfolding criterion_holds
  workflow_matches_ticket ticket none = true
  workflow_matches_ticket ticket (some cs) = all (criterion_holds ticket) cs

abbrev pub plan_department : Option ℕ → WorkflowActionPlan → WorkflowActionPlan
plan_department none p = p
plan_department (some n) p = record p {
  ticket_mutation = record (p.ticket_mutation) { department_id = some n };
}

abbrev pub plan_status : Option ℕ → WorkflowActionPlan → WorkflowActionPlan
plan_status none p = p
plan_status (some n) p = record p {
  ticket_mutation = record (p.ticket_mutation) { status_id = some n };
}

abbrev pub plan_priority : Option ℕ → WorkflowActionPlan → WorkflowActionPlan
plan_priority none p = p
plan_priority (some n) p = record p {
  ticket_mutation = record (p.ticket_mutation) { priority_id = some n };
}

abbrev pub set_type : Option ℕ → WorkflowActionPlan → WorkflowActionPlan
set_type v p = record p { ticket_mutation = record (p.ticket_mutation) { type_id = some v } }

abbrev pub plan_type : Option ℕ → WorkflowActionPlan → WorkflowActionPlan
plan_type none p = p
plan_type (some n) p = set_type (some n) p

abbrev pub set_owner : Option ℕ → WorkflowActionPlan → WorkflowActionPlan
set_owner v p = record {
  ticket_mutation = record (p.ticket_mutation) { owner_staff_id = some v };
  assigned_owner_id = v;
  skipped_owner_ids = p.skipped_owner_ids;
}

-- `can_assign` is the resolver `canAssignOwner`.
abbrev pub plan_owner : (ℕ → Bool) → Option ℕ → WorkflowActionPlan → WorkflowActionPlan
plan_owner can_assign none p = p
plan_owner can_assign (some n) p =
    if can_assign n
    then set_owner (some n) p
    else record p { skipped_owner_ids = p.skipped_owner_ids ++ n ∷ [] }

abbrev pub empty_plan : WorkflowActionPlan
empty_plan = record {
  ticket_mutation = no_mutation;
  assigned_owner_id = none;
  skipped_owner_ids = [];
}

-- The cases of the `switch` on an action's type.
abbrev pub sets_department : String → Bool
sets_department ty = str_eq ty "change_department" || str_eq ty "assign_group"

abbrev pub sets_owner : String → Bool
sets_owner ty = str_eq ty "assign" || str_eq ty "change_owner" || str_eq ty "assign_staff"

abbrev pub sets_status : String → Bool
sets_status ty = str_eq ty "change_status" || str_eq ty "set_status"

abbrev pub sets_priority : String → Bool
sets_priority ty = str_eq ty "change_priority" || str_eq ty "set_priority"

abbrev pub sets_type : String → Bool
sets_type ty = str_eq ty "change_type"

module _ (js : Runtime) where
  unfoldable pub plan_action : (ℕ → Bool) → WorkflowAction → WorkflowActionPlan → WorkflowActionPlan
  unfolding positive_integer
  plan_action can_assign a p =
      let owner = defined_or a.owner_staff_id a.value in
      let kind = defined_or a.type_id a.value in
      if sets_department a.action_type
      then plan_department (positive_integer js (coalesce a.department_id a.value)) p
      else if sets_owner a.action_type
      then (if is_null owner
          then set_owner none p
          else plan_owner can_assign (positive_integer js owner) p)
      else if sets_status a.action_type
      then plan_status (positive_integer js (coalesce a.status_id a.value)) p
      else if sets_priority a.action_type
      then plan_priority (positive_integer js (coalesce a.priority_id a.value)) p
      else if sets_type a.action_type
      then (if is_null kind then set_type none p else plan_type (positive_integer js kind) p)
      else p

  -- The loop over the actions, in order.
  unfoldable pub plan_each :
      (ℕ → Bool) → List (Option WorkflowAction) → WorkflowActionPlan → WorkflowActionPlan
  unfolding plan_action
  plan_each can_assign [] p = p
  plan_each can_assign (none ∷ rest) p = plan_each can_assign rest p
  plan_each can_assign (some a ∷ rest) p = plan_each can_assign rest (plan_action can_assign a p)

  unfoldable pub plan_workflow_actions :
      (ℕ → Bool) → Option (List (Option WorkflowAction)) → WorkflowActionPlan
  unfolding plan_each
  plan_workflow_actions can_assign none = empty_plan
  plan_workflow_actions can_assign (some rest) = plan_each can_assign rest empty_plan
