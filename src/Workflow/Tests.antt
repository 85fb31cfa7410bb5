-- ===== src/Workflow/Tests.antt =====
-- The workflow theorems at two rules, with a toy runtime.
use Prim.Native.String.{String}
use text.Mathlib.Text.{◌==◌ as str_eq}
use kayaka_style_hd.Prelude.{
  ℕ, ltb, ◌≡◌, refl, Bool, true, none, some, [], ◌∷◌, ◌==◌, if◌then◌else◌, length,
}
use kayaka_style_hd.Workflow.Matching.{
  Json, null, number, string_value, other, Fields, Runtime, WorkflowAction, Workflow,
  WorkflowTicketMutation, plan_workflow_actions,
}
use kayaka_style_hd.Workflow.Chain.{ordered, project_workflow_rule_chain, evaluate, stored_state}
use kayaka_style_hd.Workflow.Agreement.{evaluate-project_workflow_rule_chain}
use kayaka_style_hd.Workflow.Plans.{IsSound, plan_workflow_actions-IsSound}

abbrev shown : Json → String
shown null = ""
shown (number n) = if n == 2 then "2" else "9"
shown (string_value s) = s
shown (other n) = "true"

abbrev number_in : Json → ℕ
number_in (number n) = n
number_in _ = 0

abbrev toy : Runtime
toy = record {
  lower_text = shown;
  includes = str_eq;
  starts_with = str_eq;
  ends_with = str_eq;
  above = λ n v. ltb (number_in v) n;
  below = λ n v. ltb n (number_in v);
  parse_digits = λ s. if str_eq s "2" then some 2 else none;
}

abbrev action : String → Json → WorkflowAction
action ty v = record {
  action_type = ty;
  value = some v;
  department_id = none;
  owner_staff_id = none;
  status_id = none;
  priority_id = none;
  type_id = none;
}

abbrev route : Workflow
route = record {
  id = 1;
  criteria = none;
  actions = some (some (action "change_department" (string_value "2")) ∷ none ∷ []);
  is_enabled = true;
  sort_order = 0;
}

-- It matches only what the other rule has routed.
abbrev claim : Workflow
claim = record {
  id = 2;
  criteria =
      some (record { field = "departmentId"; op = "eq"; value = some (string_value "2") } ∷ []);
  actions = some (some (action "assign" (number 8)) ∷ some (action "assign" (number 7)) ∷ []);
  is_enabled = true;
  sort_order = 1;
}

abbrev created : Fields
created = ("departmentId", number 1) ∷ ("ownerStaffId", null) ∷ []

abbrev exists : ℕ → Bool
exists n = n == 8

two_steps : length (project_workflow_rule_chain toy exists created (claim ∷ route ∷ [])) ≡ 2
unfolding project_workflow_rule_chain
two_steps = refl

abbrev all_stored : Fields → WorkflowTicketMutation → Bool
all_stored t m = true

evaluate-project_workflow_rule_chain_example :
    evaluate toy exists all_stored created (ordered (claim ∷ route ∷ []))
    ≡ stored_state toy exists all_stored created
        (project_workflow_rule_chain toy exists created (claim ∷ route ∷ []))
evaluate-project_workflow_rule_chain_example =
    evaluate-project_workflow_rule_chain toy exists all_stored created (claim ∷ route ∷ [])

plan_workflow_actions-IsSound_example :
    IsSound exists (plan_workflow_actions toy exists claim.actions)
plan_workflow_actions-IsSound_example = plan_workflow_actions-IsSound toy exists claim.actions
