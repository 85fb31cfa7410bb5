-- ===== src/Tickets/Tests.antt =====
-- The ticket theorems at three tickets.
use kayaka_style_hd.Prelude.{
  ℕ, ◌≤◌, ◌≡◌, refl, ◌≢◌, ◌↔◌, true, false, none, some, [], ◌∷◌, arith, if◌then◌else◌, elem, find?,
  count_where,
}
use kayaka_style_hd.Tickets.Store.{Ticket, Db, Actor, Result, ok, err, ticket_by_id}
use kayaka_style_hd.Tickets.Access.{assert_can_access_ticket, assert_can_access_tickets}
use kayaka_style_hd.Tickets.Operations.{assign, Status, DueDatesOf, status_patch, bulk_status_patch}
use kayaka_style_hd.Tickets.Merging.{watches, merge_prepare, merge_commit, merge}
use kayaka_style_hd.Tickets.BulkAccess.{UniqueIds, assert_can_access_tickets_iff}
use kayaka_style_hd.Tickets.MergeForest.{Ends, merged_into}
use kayaka_style_hd.Tickets.MergeChains.{merge-Ends, merge_race}
use kayaka_style_hd.Tickets.Assignment.{
  IsEntitled, assign-IsEntitled, reopens_unplanned, bulk_status_patch_lem,
}

abbrev ticket : ℕ → ℕ → Ticket
ticket id department_id = record {
  id = id;
  department_id = department_id;
  status_id = 1;
  priority_id = 1;
  type_id = none;
  owner_staff_id = none;
  sla_plan_id = none;
  is_resolved = false;
  resolved_at = none;
  reopened_at = none;
  was_reopened = false;
  due_at = none;
  resolution_due_at = none;
  first_response_at = none;
  is_escalated = false;
  escalation_level = 0;
  merged_into_id = none;
  total_replies = 1;
  last_activity_at = 0;
}

abbrev desk : Db
desk = record {
  tickets = ticket 1 4 ∷ ticket 2 4 ∷ ticket 3 5 ∷ [];
  memberships = record { department_id = 4; staff_id = 8 } ∷ [];
  agents = record { id = 8; is_enabled = true; is_admin = false } ∷ [];
  posts = record { id = 1; ticket_id = some 1 } ∷ record { id = 2; ticket_id = some 2 } ∷ [];
  notes = [];
  attachments = [];
  time_entries = [];
  follow_ups = [];
  watchers =
      record { ticket_id = 1; staff_id = 8 }
      ∷ record { ticket_id = 2; staff_id = 8 }
      ∷ record { ticket_id = 1; staff_id = 9 }
      ∷ [];
}

abbrev agent : Actor
agent = record { staff_id = 8; is_admin = false }

desk_unique : UniqueIds desk.tickets
unfolding count_where
desk_unique i = ground arith

-- The agent sees the first two tickets, and the mixed set is refused.
mixed_refused :
    (assert_can_access_tickets desk agent (1 ∷ 2 ∷ 1 ∷ []) ≡ ok tt)
    × (assert_can_access_tickets desk agent (1 ∷ 3 ∷ []) ≢ ok tt)
unfolding assert_can_access_tickets
mixed_refused = (refl, λ e. cc)

assert_can_access_tickets_iff_example :
    (assert_can_access_tickets desk agent (1 ∷ 3 ∷ []) ≡ ok tt)
    ↔ ((i : ℕ) → elem i (1 ∷ 3 ∷ []) ≡ true → assert_can_access_ticket desk agent i ≡ ok tt)
assert_can_access_tickets_iff_example =
    assert_can_access_tickets_iff desk agent desk_unique (1 ∷ 3 ∷ [])

abbrev db_or : Result Db → Db
db_or (ok db) = db
db_or (err e) = desk

assigned :
    assign 50 (some agent) 1 (some 8) desk ≡ ok (db_or (assign 50 (some agent) 1 (some 8) desk))
unfolding assign
assigned = refl

assign-IsEntitled_example :
    (t : Ticket) × (ticket_by_id 1 desk ≡ some t)
    × IsEntitled desk 8 (t.department_id ∷ [])
    × (u : Ticket) × (ticket_by_id 1 (db_or (assign 50 (some agent) 1 (some 8) desk)) ≡ some u)
    × (u.owner_staff_id ≡ some 8)
assign-IsEntitled_example =
    assign-IsEntitled 50 1 8 agent desk (db_or (assign 50 (some agent) 1 (some 8) desk)) desk_unique
      assigned

watched_once : (t u : ℕ) → count_where (watches t u) desk.watchers ≤ 1
unfolding count_where
watched_once t u = ground arith

abbrev merged : Db
merged = db_or (merge 50 none 1 2 desk)

has_merged : merge 50 none 1 2 desk ≡ ok merged
unfolding merge
has_merged = refl

third_active : merged_into desk 3 ≡ none
unfolding find?
third_active = refl

merge-Ends_example : Ends merged 3
merge-Ends_example =
    merge-Ends 50 1 2 none desk merged desk_unique has_merged 3 (Ends.active 3 third_active)

reads_forward : merge_prepare none 1 2 desk ≡ ok (ticket 1 4, ticket 2 4)
unfolding merge_prepare
reads_forward = refl

reads_backward : merge_prepare none 2 1 desk ≡ ok (ticket 2 4, ticket 1 4)
unfolding merge_prepare
reads_backward = refl

abbrev forward : Db
forward = db_or (merge_commit 50 none (ticket 1 4) (ticket 2 4) desk)

abbrev both : Db
both = db_or (merge_commit 60 none (ticket 2 4) (ticket 1 4) forward)

commits_forward : merge_commit 50 none (ticket 1 4) (ticket 2 4) desk ≡ ok forward
unfolding merge_commit
commits_forward = refl

commits_backward : merge_commit 60 none (ticket 2 4) (ticket 1 4) forward ≡ ok both
unfolding merge_commit
commits_backward = refl

merge_race_example : (merged_into both 1 ≡ some 2) × (merged_into both 2 ≡ some 1) × ¬ (Ends both 1)
merge_race_example =
    merge_race 50 60 1 2 none none (ticket 1 4) (ticket 2 4) (ticket 2 4) (ticket 1 4) desk forward
      both desk_unique reads_forward reads_backward commits_forward commits_backward

abbrev resolved : Ticket
resolved = record (ticket 1 4) { is_resolved = true; resolved_at = some 10 }

abbrev opened : Status
opened = record { id = 1; mark_as_resolved = false }

abbrev no_dates : DueDatesOf
no_dates plan = (none, none)

bulk_status_patch_lem_example : bulk_status_patch no_dates 50 opened resolved resolved ≡ (
    if reopens_unplanned opened resolved
    then record (status_patch no_dates 50 opened resolved resolved) {
      reopened_at = some 50;
      was_reopened = true;
    }
    else status_patch no_dates 50 opened resolved resolved)
bulk_status_patch_lem_example = bulk_status_patch_lem no_dates 50 opened resolved (λ e. cc)
