-- ===== src/Tickets/Assignment.antt =====
-- Who can become the owner of a ticket, and what the two ways to change a status have in common, in
-- apps/api/src/modules/tickets/tickets.service.ts.
use kayaka_style_hd.Prelude.{
  ℕ, ◌≡◌, refl, sym, ap, ◌∙◌, subst, ◌⊎◌, inl, inr, Bool, true, false, not, ◌&&◌, none, some, List,
  [], ◌∷◌, arith, ◌==◌, if◌then◌else◌, ==_iff, Bool-cases, is_none, any, find?, count_where,
  find?-sound, find?-update_where,
}
use kayaka_style_hd.Tickets.Store.{
  Ticket, Agent, Db, Actor, staff_not_found, ok, found, ticket_by_id, bind-eq-ok, found-eq-ok,
  ok-injective,
}
use kayaka_style_hd.Tickets.Access.{
  is_member, is_visible_id, fence_ticket_mutation, check_assignee, touch,
  assert_assignee_can_handle_departments,
}
use kayaka_style_hd.Tickets.Operations.{
  find_accessible, check_owner, fence, assign, Status, DueDatesOf, status_patch, bulk_status_patch,
}
use kayaka_style_hd.Tickets.BulkAccess.{UniqueIds}
use kayaka_style_hd.Tickets.MergeChains.{find_accessible-ticket_by_id}

-- The member can handle every one of the departments.
pub record IsEntitled (db : Db) (staff_id : ℕ) (departments : List ℕ) : Type 0 where
  pub agent : Agent
  pub stored : find? (λ s. s.id == staff_id) db.agents ≡ some agent
  pub is_on : agent.is_enabled ≡ true
  pub allowed :
      (agent.is_admin ≡ true) ⊎ (any (λ d. not (is_member db staff_id d)) departments ≡ false)

pub assert_assignee-IsEntitled :
    (db : Db) (staff_id : ℕ) (departments : List ℕ)
    → assert_assignee_can_handle_departments db staff_id departments ≡ ok tt
    → IsEntitled db staff_id departments
unfolding assert_assignee_can_handle_departments
assert_assignee-IsEntitled db staff_id departments e =
    let (s, e₁, e₂) =
      bind-eq-ok (found (find? (λ x. x.id == staff_id) db.agents) staff_not_found)
        (check_assignee db departments) e in
    let there = found-eq-ok (find? (λ x. x.id == staff_id) db.agents) staff_not_found e₁ in
    let same : s.id ≡ staff_id =
      (==_iff _ _).0 (find?-sound (λ x. x.id == staff_id) db.agents s there) in
    record {
      agent = s;
      stored = there;
      is_on = ground arith;
      allowed = elim (Bool-cases s.is_admin) [
        | inl f ↦ inl f
        | inr f ↦
            inr (
              subst (λ k. any (λ d. not (is_member db k d)) departments ≡ false) same
                (ground arith))
      ];
    }

fence-ticket_by_id :
    (now : ℕ) (a : Actor) (id : ℕ) (t : Ticket) (db db' : Db)
    → fence_ticket_mutation now a id db ≡ ok db'
    → ticket_by_id id db ≡ some t
    → (u : Ticket) × (ticket_by_id id db' ≡ some u)
unfolding fence_ticket_mutation
fence-ticket_by_id now a id t db db' e there =
    elim (Bool-cases (count_where (is_visible_id db a id) db.tickets == 1)) [
      | inl f ↦
          let same = ok-injective (rw f at e) in
          (
            if is_visible_id db a id t then touch now t else t,
            ap (ticket_by_id id) (sym same)
                ∙ find?-update_where (λ x. x.id == id) (is_visible_id db a id) (touch now)
                    db.tickets (λ x. refl)
                ∙ rw there refl,
          )
      | inr f ↦ absurd (ground arith)
    ]

-- Where an actor's assignment succeeds and ids are unique, the ticket has the new owner, who is
-- enabled, and an administrator or a member of the ticket's department.
pub assign-IsEntitled :
    (now id owner : ℕ) (a : Actor) (db db' : Db)
    → UniqueIds db.tickets
    → assign now (some a) id (some owner) db ≡ ok db'
    → (t : Ticket) × (ticket_by_id id db ≡ some t)
      × IsEntitled db owner (t.department_id ∷ [])
      × (u : Ticket) × (ticket_by_id id db' ≡ some u)
      × (u.owner_staff_id ≡ some owner)
unfolding assign
assign-IsEntitled now id owner a db db' unique e =
    let (t, e₁, e₂) = bind-eq-ok (find_accessible db (some a) id) _ e in
    let (u, e₃, e₄) =
      bind-eq-ok (check_owner db (some a) (some owner) (t.department_id ∷ [])) _ e₂ in
    let (mid, e₅, e₆) = bind-eq-ok (fence now (some a) id db) _ e₄ in
    let there = find_accessible-ticket_by_id db (some a) id t unique e₁ in
    let (v, still) = fence-ticket_by_id now a id t db mid (unfold fence in e₅) there in
    let f = λ (x : Ticket). record x { owner_staff_id = some owner; last_activity_at = now } in
    let here : (v.id == id) ≡ true = find?-sound (λ x. x.id == id) mid.tickets v still in
    (
      t,
      there,
      assert_assignee-IsEntitled db owner (t.department_id ∷ []) (unfold check_owner in e₃),
      f v,
      ap (ticket_by_id id) (sym (ok-injective e₆))
          ∙ find?-update_where (λ x. x.id == id) (λ x. x.id == id) f mid.tickets (λ x. refl)
          ∙ rw (still, here) refl,
      refl,
    )

abbrev pub reopens_unplanned : Status → Ticket → Bool
reopens_unplanned s t = not s.mark_as_resolved && t.is_resolved && is_none t.sla_plan_id

-- A bulk status change and the single one do the same to a ticket whose resolution time is set only
-- while it is resolved, but for one case: where a resolved ticket with no SLA plan is reopened, only
-- the bulk change records the reopening.
pub bulk_status_patch_lem :
    (dates : DueDatesOf) (now : ℕ) (s : Status) (t : Ticket)
    → (t.is_resolved ≡ false → t.resolved_at ≡ none)
    → bulk_status_patch dates now s t t ≡ (
        let single = status_patch dates now s t t in
        if reopens_unplanned s t
        then record single { reopened_at = some now; was_reopened = true }
        else single)
unfolding bulk_status_patch status_patch
bulk_status_patch_lem dates now s t h = ground arith
