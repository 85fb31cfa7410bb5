-- ===== src/Workflow/Chain.antt =====
-- apps/api/src/modules/workflow/workflow-matching.ts: the projection of the ordered rules; and the
-- loop over the rules in workflow.executor.ts, as far as it changes the scalar fields of a ticket.
use Prim.Native.String.{String}
use kayaka_style_hd.Prelude.{
  ℕ, Bool, ◌&&◌, ◌||◌, Option, none, some, List, [], ◌∷◌, ltb, leb, ◌==◌, if◌then◌else◌, keep,
}
use kayaka_style_hd.Workflow.Matching.{
  Json, null, number, Fields, Runtime, Workflow, WorkflowTicketMutation, WorkflowActionPlan,
  workflow_matches_ticket, plan_workflow_actions,
}

abbrev pub put : String → Option Json → Fields → Fields
put name none t = t
put name (some v) t = (name, v) ∷ t

abbrev pub plain : Option ℕ → Option Json
plain none = none
plain (some n) = some (number n)

-- A value that may be null.
abbrev pub nullable : Option (Option ℕ) → Option Json
nullable none = none
nullable (some none) = some null
nullable (some (some n)) = some (number n)

-- `{ ...ticket, ...mutation }`
unfoldable pub apply_workflow_ticket_mutation : Fields → WorkflowTicketMutation → Fields
apply_workflow_ticket_mutation t m = put "departmentId" (plain m.department_id) (
    put "ownerStaffId" (nullable m.owner_staff_id) (
      put "statusId" (plain m.status_id)
        (put "priorityId" (plain m.priority_id) (put "typeId" (nullable m.type_id) t))))

pub record WorkflowRuleChainStep : Type 0 where
  pub workflow : Workflow
  pub before : Fields
  pub action_plan : WorkflowActionPlan
  pub after : Fields

-- The order by `sortOrder`, then by id.
abbrev pub comes_before : Workflow → Workflow → Bool
comes_before v w = ltb v.sort_order w.sort_order || v.sort_order == w.sort_order && leb v.id w.id

unfoldable pub insert_workflow : Workflow → List Workflow → List Workflow
insert_workflow w [] = w ∷ []
insert_workflow w (v ∷ vs) =
    let rest = insert_workflow w vs in if comes_before w v then w ∷ v ∷ vs else v ∷ rest

unfoldable pub sort_workflows : List Workflow → List Workflow
unfolding insert_workflow
sort_workflows [] = []
sort_workflows (w ∷ ws) = insert_workflow w (sort_workflows ws)

unfoldable pub ordered : List Workflow → List Workflow
unfolding keep sort_workflows
ordered ws = sort_workflows (keep (λ w. w.is_enabled) ws)

module _ (js : Runtime) (can_assign : ℕ → Bool) where
  abbrev pub step_of : Fields → Workflow → WorkflowRuleChainStep
  step_of current w =
      let p = plan_workflow_actions js can_assign w.actions in
      record {
        workflow = w;
        before = current;
        action_plan = p;
        after = apply_workflow_ticket_mutation current p.ticket_mutation;
      }

  -- The loop over the ordered rules, each on the ticket as the one before has left it.
  unfoldable pub project : Fields → List Workflow → List WorkflowRuleChainStep
  unfolding workflow_matches_ticket plan_workflow_actions apply_workflow_ticket_mutation
  project current [] = []
  project current (w ∷ ws) =
      let skipped = project current ws in
      let s = step_of current w in
      let further = project s.after ws in
      if workflow_matches_ticket js current w.criteria then s ∷ further else skipped

  unfoldable pub project_workflow_rule_chain : Fields → List Workflow → List WorkflowRuleChainStep
  unfolding project ordered
  project_workflow_rule_chain ticket ws = project ticket (ordered ws)

  -- The loop of `evaluate` in workflow.executor.ts, which projects one rule at a time and stores its
  -- changes. `stores` tells whether the database takes an update of the ticket; where it does not, as
  -- for an identifier that is no row's, the update throws and the loop ends; of an empty
  -- change, which updates nothing, it tells true. The rules come from a cache, and the ticket read back after an update
  -- is taken to be the updated one: nobody else changes it in between.
  module _ (stores : Fields → WorkflowTicketMutation → Bool) where
    abbrev pub is_stored : WorkflowRuleChainStep → Bool
    is_stored s = stores s.before s.action_plan.ticket_mutation

    -- The rest of the loop after the projection of one rule.
    abbrev pub applied : Fields → List WorkflowRuleChainStep → (Fields → Fields) → Fields
    applied ticket [] next = next ticket
    applied ticket (s ∷ ss) next = if is_stored s then next s.after else ticket

    unfoldable pub evaluate : Fields → List Workflow → Fields
    unfolding project_workflow_rule_chain
    evaluate ticket [] = ticket
    evaluate ticket (w ∷ ws) =
        applied ticket (project_workflow_rule_chain ticket (w ∷ [])) (λ t. evaluate t ws)

    -- The ticket after the last step of a chain before one that is not stored.
    abbrev pub stored_state : Fields → List WorkflowRuleChainStep → Fields
    stored_state ticket [] = ticket
    stored_state ticket (s ∷ ss) =
        let rest = stored_state s.after ss in if is_stored s then rest else ticket
