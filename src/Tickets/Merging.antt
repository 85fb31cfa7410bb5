-- ===== src/Tickets/Merging.antt =====
-- apps/api/src/modules/tickets/tickets.service.ts: `merge`, its reads and its transaction, and the
-- watchers.
use kayaka_style_hd.Prelude.{
  ℕ, ◌+◌, Bool, false, not, ◌&&◌, Option, none, some, List, [], ◌∷◌, ltb, ◌==◌, if◌then◌else◌,
  is_none, is_some, any, find?, update_where, drop_where,
}
use kayaka_style_hd.Tickets.Store.{
  Ticket, Child, Watcher, Db, Actor, ticket_not_found, merge_into_itself, source_already_merged,
  target_already_merged, Result, ok, ◌>>=◌, ◌>>◌, require, ticket_by_id,
}
use kayaka_style_hd.Tickets.Access.{is_member, assert_assignee_can_handle_departments}
use kayaka_style_hd.Tickets.Operations.{find_accessible, fence, update_ticket}

-- `pruneWatchersOutsideDepartment`
abbrev pub is_outside : Db → ℕ → ℕ → Bool
is_outside db department_id staff_id =
    any (λ s. s.id == staff_id && not s.is_admin && not (is_member db staff_id department_id))
      db.agents

unfoldable pub prune_watchers : ℕ → ℕ → Db → Db
unfolding drop_where
prune_watchers ticket_id department_id db = record db {
  watchers =
      drop_where (λ w. w.ticket_id == ticket_id && is_outside db department_id w.staff_id)
        db.watchers;
}

abbrev pub of_ticket : ℕ → Child → Bool
of_ticket id c = elim c.ticket_id [ none ↦ false | some t ↦ t == id ]

abbrev pub to_ticket : ℕ → Child → Child
to_ticket id c = record c { ticket_id = some id }

unfoldable pub move_children : ℕ → ℕ → List Child → List Child
unfolding update_where
move_children source target = update_where (of_ticket source) (to_ticket target)

abbrev pub watches : ℕ → ℕ → Watcher → Bool
watches ticket_id staff_id w = w.ticket_id == ticket_id && w.staff_id == staff_id

-- The watchers of the source that the target does not have are moved, the others deleted.
unfoldable pub move_watchers : ℕ → ℕ → List Watcher → List Watcher
unfolding update_where drop_where
move_watchers source target ws =
    drop_where (λ w. w.ticket_id == source)
      (update_where (λ w. w.ticket_id == source && not (any (watches target w.staff_id) ws))
        (λ w. record w { ticket_id = target }) ws)

-- The two tickets as they are read, with the guards on them.
unfoldable pub merge_prepare : Option Actor → ℕ → ℕ → Db → Result (Ticket × Ticket)
unfolding find_accessible
merge_prepare a source_id target_id db = do
  source ← find_accessible db a source_id
  target ← find_accessible db a target_id
  require (not (source.id == target.id)) merge_into_itself
  require (is_none source.merged_into_id) source_already_merged
  require (is_none target.merged_into_id) target_already_merged
  ok (source, target)

-- The fences in ascending order of the ids.
abbrev pub fence_both : ℕ → Option Actor → ℕ → ℕ → Db → Result Db
fence_both now a i j db =
    if ltb j i then fence now a j db >>= fence now a i else fence now a i db >>= fence now a j

unfoldable pub merge_tables : ℕ → Ticket → Ticket → Db → Db
unfolding move_children move_watchers prune_watchers update_where
merge_tables now source target db =
    let moved = record db {
      posts = move_children source.id target.id db.posts;
      notes = move_children source.id target.id db.notes;
      attachments = move_children source.id target.id db.attachments;
    } in
    let pruned =
      prune_watchers target.id target.department_id
        (prune_watchers source.id target.department_id moved) in
    let watched = record pruned { watchers = move_watchers source.id target.id pruned.watchers } in
    let marked =
      update_ticket source.id
        (λ t. record t { merged_into_id = some target.id; last_activity_at = now }) watched in
    update_ticket target.id
      (λ t. record t {
        total_replies = t.total_replies + source.total_replies;
        last_activity_at = now;
      })
      marked

-- The transaction. An update of a ticket that is gone throws.
unfoldable pub merge_commit : ℕ → Option Actor → Ticket → Ticket → Db → Result Db
unfolding fence merge_tables find?
merge_commit now a source target db = do
  fenced ← fence_both now a source.id target.id db
  require (is_some (ticket_by_id source.id fenced)) ticket_not_found
  require (is_some (ticket_by_id target.id fenced)) ticket_not_found
  ok (merge_tables now source target fenced)

unfoldable pub merge : ℕ → Option Actor → ℕ → ℕ → Db → Result Db
unfolding merge_prepare merge_commit
merge now a source_id target_id db =
    merge_prepare a source_id target_id db >>= λ st. merge_commit now a st.0 st.1 db

abbrev check_watcher : Db → Option Actor → ℕ → ℕ → Result (Unit {0})
check_watcher db none staff_id department_id = ok tt
check_watcher db (some a) staff_id department_id =
    assert_assignee_can_handle_departments db staff_id (department_id ∷ [])

abbrev pub upsert_watcher : ℕ → ℕ → List Watcher → List Watcher
upsert_watcher ticket_id staff_id ws =
    if any (watches ticket_id staff_id) ws
    then ws
    else record { ticket_id = ticket_id; staff_id = staff_id } ∷ ws

unfoldable pub add_watcher : ℕ → Option Actor → ℕ → ℕ → Db → Result Db
unfolding find_accessible fence
add_watcher now a ticket_id staff_id db = do
  t ← find_accessible db a ticket_id
  check_watcher db a staff_id t.department_id
  db' ← fence now a ticket_id db
  ok (record db' { watchers = upsert_watcher ticket_id staff_id db'.watchers })

abbrev seen_by : Db → Option Actor → ℕ → Result (Unit {0})
seen_by db none id = ok tt
seen_by db (some a) id = find_accessible db (some a) id >>= λ t. ok tt

unfoldable pub remove_watcher : ℕ → Option Actor → ℕ → ℕ → Db → Result Db
unfolding find_accessible fence drop_where
remove_watcher now a ticket_id staff_id db = do
  seen_by db a ticket_id
  db' ← fence now a ticket_id db
  ok (record db' { watchers = drop_where (watches ticket_id staff_id) db'.watchers })
