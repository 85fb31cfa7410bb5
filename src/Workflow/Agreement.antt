-- ===== src/Workflow/Agreement.antt =====
-- The executor and the projection of the workflow rules agree: workflow.executor.ts and
-- workflow-matching.ts of apps/api/src/modules/workflow.
use kayaka_style_hd.Prelude.{
  ℕ, ◌≡◌, refl, inl, inr, Bool, true, List, [], ◌∷◌, Bool-cases, All, keep, All-keep_test,
}
use kayaka_style_hd.Workflow.Matching.{
  Fields, Runtime, Workflow, WorkflowTicketMutation, workflow_matches_ticket,
}
use kayaka_style_hd.Workflow.Chain.{
  comes_before, insert_workflow, sort_workflows, ordered, step_of, project,
  project_workflow_rule_chain, evaluate, stored_state,
}

pub All-insert_workflow :
    (P : Workflow → Type 0) (w : Workflow) (ws : List Workflow)
    → P w
    → All P ws
    → All P (insert_workflow w ws)
unfolding insert_workflow
All-insert_workflow P w [] h k = (h, tt)
All-insert_workflow P w (v ∷ vs) h k = elim (Bool-cases (comes_before w v)) [
  | inl e ↦ rw e (h, k)
  | inr e ↦ rw e (k.0, All-insert_workflow P w vs h k.1)
]

All-sort_workflows :
    (P : Workflow → Type 0) (ws : List Workflow) → All P ws → All P (sort_workflows ws)
unfolding sort_workflows
All-sort_workflows P [] h = tt
All-sort_workflows P (w ∷ ws) h =
    All-insert_workflow P w (sort_workflows ws) h.0 (All-sort_workflows P ws h.1)

pub ordered-enabled : (ws : List Workflow) → All (λ w. w.is_enabled ≡ true) (ordered ws)
unfolding ordered
ordered-enabled ws =
    All-sort_workflows (λ w. w.is_enabled ≡ true) (keep (λ w. w.is_enabled) ws)
      (All-keep_test (λ w. w.is_enabled) ws)

ordered_one : (w : Workflow) → w.is_enabled ≡ true → ordered (w ∷ []) ≡ w ∷ []
unfolding ordered keep sort_workflows insert_workflow
ordered_one w e = rw e refl

module _ (js : Runtime) (can_assign : ℕ → Bool)
    (stores : Fields → WorkflowTicketMutation → Bool) where
  evaluate-project :
      (ticket : Fields) (ws : List Workflow)
      → All (λ w. w.is_enabled ≡ true) ws
      → evaluate js can_assign stores ticket ws
        ≡ stored_state js can_assign stores ticket (project js can_assign ticket ws)
  unfolding evaluate project_workflow_rule_chain project
  evaluate-project ticket [] h = refl
  evaluate-project ticket (w ∷ ws) h =
      elim (Bool-cases (workflow_matches_ticket js ticket w.criteria)) [
        | inl e ↦
            rw
              (ordered_one w h.0, e, evaluate-project (step_of js can_assign ticket w).after ws h.1)
              refl
        | inr e ↦ rw (ordered_one w h.0, e) (evaluate-project ticket ws h.1)
      ]

  -- The executor, which projects one rule at a time, stores its changes and goes on with the ticket as
  -- that rule has left it, ends with the same scalar fields as the projection of the whole chain of
  -- rules, which the durable email events use, has before its first step whose update the database
  -- refuses, and with those of the whole chain where it refuses none; the same rules and assignable
  -- staff members are taken for both, and nobody else changes the ticket.
  pub evaluate-project_workflow_rule_chain :
      (ticket : Fields) (ws : List Workflow)
      → evaluate js can_assign stores ticket (ordered ws)
        ≡ stored_state js can_assign stores ticket
            (project_workflow_rule_chain js can_assign ticket ws)
  unfolding project_workflow_rule_chain
  evaluate-project_workflow_rule_chain ticket ws =
      evaluate-project ticket (ordered ws) (ordered-enabled ws)
