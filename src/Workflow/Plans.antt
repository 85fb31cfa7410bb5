-- ===== src/Workflow/Plans.antt =====
-- What the plan of a rule's actions can hold: `planWorkflowActions` of
-- apps/api/src/modules/workflow/workflow-matching.ts.
use kayaka_style_hd.Prelude.{
  ℕ, ◌≤◌, ◌≡◌, refl, ap, subst, inl, inr, Bool, true, false, ◌&&◌, Option, none, some, List, [],
  ◌∷◌, arith, leb, if◌then◌else◌, Bool-cases, All, All-append,
}
use kayaka_style_hd.Workflow.Matching.{
  Json, Runtime, WorkflowAction, WorkflowActionPlan, coalesce, defined_or, max_safe_integer,
  positive_safe, is_null, parsed, positive_integer, sets_department, sets_owner, sets_status,
  sets_priority, sets_type, plan_department, plan_status, plan_priority, set_type, plan_type,
  set_owner, plan_owner, plan_action, plan_each, empty_plan, plan_workflow_actions,
}

abbrev owner_of : Option (Option ℕ) → Option ℕ
owner_of none = none
owner_of (some o) = o

-- A positive integer that a JavaScript number holds exactly.
abbrev IsIdentifier : ℕ → Type 0
IsIdentifier n = (1 ≤ n) × (n ≤ max_safe_integer)

-- The assignee of the plan is the owner that its mutation sets, and an assignable identifier; the
-- skipped owners are not assignable; the other changes are identifiers.
pub record IsSound (can_assign : ℕ → Bool) (p : WorkflowActionPlan) : Type 0 where
  pub owner : p.assigned_owner_id ≡ owner_of p.ticket_mutation.owner_staff_id
  pub assignable :
      (n : ℕ)
      → p.ticket_mutation.owner_staff_id ≡ some (some n)
      → (can_assign n ≡ true) × IsIdentifier n
  pub skipped : All (λ n. can_assign n ≡ false) p.skipped_owner_ids
  pub department : (n : ℕ) → p.ticket_mutation.department_id ≡ some n → IsIdentifier n
  pub status : (n : ℕ) → p.ticket_mutation.status_id ≡ some n → IsIdentifier n
  pub priority : (n : ℕ) → p.ticket_mutation.priority_id ≡ some n → IsIdentifier n
  pub kind : (n : ℕ) → p.ticket_mutation.type_id ≡ some (some n) → IsIdentifier n

-- Either branch has the property.
if_both {ℓ κ} :
    {A : Type ℓ} (P : A → Type κ) (b : Bool) (x y : A) → P x → P y → P (if b then x else y)
if_both P true x y h k = h
if_both P false x y h k = k

positive_safe-IsIdentifier : (o : Option ℕ) (n : ℕ) → positive_safe o ≡ some n → IsIdentifier n
positive_safe-IsIdentifier none n h = absurd (cc)
positive_safe-IsIdentifier (some m) n h = elim (Bool-cases (leb 1 m && leb m max_safe_integer)) [
  | inl e ↦ let same : m ≡ n = ground arith in rw⁻¹ same (ground arith, ground arith)
  | inr e ↦ absurd (let h' : none ≡ some n = rw e at h in cc)
]

module _ (js : Runtime) (can_assign : ℕ → Bool) where
  positive_integer-IsIdentifier :
      (v : Option Json) (n : ℕ) → positive_integer js v ≡ some n → IsIdentifier n
  unfolding positive_integer
  positive_integer-IsIdentifier v n h = positive_safe-IsIdentifier (parsed js v) n h

  abbrev Valid : Option ℕ → Type 0
  Valid o = (n : ℕ) → o ≡ some n → IsIdentifier n

  department-IsSound :
      (o : Option ℕ) (p : WorkflowActionPlan)
      → Valid o
      → IsSound can_assign p
      → IsSound can_assign (plan_department o p)
  department-IsSound none p v s = s
  department-IsSound (some n) p v s = record {
    owner = s.owner;
    assignable = s.assignable;
    skipped = s.skipped;
    department = v;
    status = s.status;
    priority = s.priority;
    kind = s.kind;
  }

  status-IsSound :
      (o : Option ℕ) (p : WorkflowActionPlan)
      → Valid o
      → IsSound can_assign p
      → IsSound can_assign (plan_status o p)
  status-IsSound none p v s = s
  status-IsSound (some n) p v s = record {
    owner = s.owner;
    assignable = s.assignable;
    skipped = s.skipped;
    department = s.department;
    status = v;
    priority = s.priority;
    kind = s.kind;
  }

  priority-IsSound :
      (o : Option ℕ) (p : WorkflowActionPlan)
      → Valid o
      → IsSound can_assign p
      → IsSound can_assign (plan_priority o p)
  priority-IsSound none p v s = s
  priority-IsSound (some n) p v s = record {
    owner = s.owner;
    assignable = s.assignable;
    skipped = s.skipped;
    department = s.department;
    status = s.status;
    priority = v;
    kind = s.kind;
  }

  type-IsSound :
      (o : Option ℕ) (p : WorkflowActionPlan)
      → Valid o
      → IsSound can_assign p
      → IsSound can_assign (plan_type o p)
  type-IsSound none p v s = s
  type-IsSound (some n) p v s = record {
    owner = s.owner;
    assignable = s.assignable;
    skipped = s.skipped;
    department = s.department;
    status = s.status;
    priority = s.priority;
    kind = λ m e. v m (ap (λ x. owner_of x) e);
  }

  no_type-IsSound :
      (p : WorkflowActionPlan) → IsSound can_assign p → IsSound can_assign (set_type none p)
  no_type-IsSound p s = record {
    owner = s.owner;
    assignable = s.assignable;
    skipped = s.skipped;
    department = s.department;
    status = s.status;
    priority = s.priority;
    kind = λ m e. absurd (cc);
  }

  no_owner-IsSound :
      (p : WorkflowActionPlan) → IsSound can_assign p → IsSound can_assign (set_owner none p)
  no_owner-IsSound p s = record {
    owner = refl;
    assignable = λ m e. absurd (cc);
    skipped = s.skipped;
    department = s.department;
    status = s.status;
    priority = s.priority;
    kind = s.kind;
  }

  owner-IsSound :
      (o : Option ℕ) (p : WorkflowActionPlan)
      → Valid o
      → IsSound can_assign p
      → IsSound can_assign (plan_owner can_assign o p)
  owner-IsSound none p v s = s
  owner-IsSound (some n) p v s = elim (Bool-cases (can_assign n)) [
    | inl e ↦ rw e (record {
      owner = refl;
      assignable = λ m h.
          let same : n ≡ m = cc in
          (subst (λ x. can_assign x ≡ true) same e, subst IsIdentifier same (v n refl));
      skipped = s.skipped;
      department = s.department;
      status = s.status;
      priority = s.priority;
      kind = s.kind;
    })
    | inr e ↦ rw e (record {
      owner = s.owner;
      assignable = s.assignable;
      skipped =
          All-append (λ x. can_assign x ≡ false) p.skipped_owner_ids (n ∷ []) s.skipped (e, tt);
      department = s.department;
      status = s.status;
      priority = s.priority;
      kind = s.kind;
    })
  ]

  plan_action-IsSound :
      (a : WorkflowAction) (p : WorkflowActionPlan)
      → IsSound can_assign p
      → IsSound can_assign (plan_action js can_assign a p)
  unfolding plan_action
  plan_action-IsSound a p s =
      let owner = defined_or a.owner_staff_id a.value in
      let kind = defined_or a.type_id a.value in
      let S = IsSound can_assign in
      let ty = a.action_type in
      if_both S (sets_department ty) _ _
        (department-IsSound _ p (positive_integer-IsIdentifier (coalesce a.department_id a.value))
          s)
        (if_both S (sets_owner ty) _ _
          (if_both S (is_null owner) _ _ (no_owner-IsSound p s)
            (owner-IsSound _ p (positive_integer-IsIdentifier owner) s))
          (if_both S (sets_status ty) _ _
            (status-IsSound _ p (positive_integer-IsIdentifier (coalesce a.status_id a.value)) s)
            (if_both S (sets_priority ty) _ _
              (priority-IsSound _ p (positive_integer-IsIdentifier (coalesce a.priority_id a.value))
                s)
              (if_both S (sets_type ty) _ _
                (if_both S (is_null kind) _ _ (no_type-IsSound p s)
                  (type-IsSound _ p (positive_integer-IsIdentifier kind) s))
                s))))

  plan_each-IsSound :
      (actions : List (Option WorkflowAction)) (p : WorkflowActionPlan)
      → IsSound can_assign p
      → IsSound can_assign (plan_each js can_assign actions p)
  unfolding plan_each
  plan_each-IsSound [] p s = s
  plan_each-IsSound (none ∷ more) p s = plan_each-IsSound more p s
  plan_each-IsSound (some a ∷ more) p s =
      plan_each-IsSound more (plan_action js can_assign a p) (plan_action-IsSound a p s)

  empty_plan-IsSound : IsSound can_assign (empty_plan)
  empty_plan-IsSound = record {
    owner = refl;
    assignable = λ n e. absurd (cc);
    skipped = tt;
    department = λ n e. absurd (cc);
    status = λ n e. absurd (cc);
    priority = λ n e. absurd (cc);
    kind = λ n e. absurd (cc);
  }

  -- Whatever a rule's stored actions are, their plan assigns the ticket exactly to the owner that its
  -- mutation sets, if any, who is assignable; the owners it skips are not; and every identifier that
  -- the mutation sets is a positive safe integer.
  pub plan_workflow_actions-IsSound :
      (actions : Option (List (Option WorkflowAction)))
      → IsSound can_assign (plan_workflow_actions js can_assign actions)
  unfolding plan_workflow_actions
  plan_workflow_actions-IsSound none = empty_plan-IsSound
  plan_workflow_actions-IsSound (some actions) =
      plan_each-IsSound actions (empty_plan) empty_plan-IsSound
