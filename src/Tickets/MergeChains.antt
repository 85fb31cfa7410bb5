-- ===== src/Tickets/MergeChains.antt =====
-- Chains of merges end while merges run one after the other, and not where two of them overlap:
-- `merge` of apps/api/src/modules/tickets/tickets.service.ts.
use mathlib.Core.Path.{ap₂}
use kayaka_style_hd.Prelude.{
  ℕ, ◌≡◌, refl, sym, ap, ◌∙◌, subst, ◌≢◌, ◌⊎◌, inl, inr, true, false, not, Option, none, some,
  arith, ◌==◌, if◌then◌else◌, ==_iff, Bool-cases, Option-cases, is_none, find?, find?-sound,
  All-find?, find?-unique, is_some-find?, count_where_pos,
}
use kayaka_style_hd.Tickets.Store.{
  Ticket, Db, Actor, ticket_not_found, ok, ticket_by_id, bind-eq-ok, require-eq-ok, found-eq-ok,
  ok-injective,
}
use kayaka_style_hd.Tickets.Access.{is_visible_id}
use kayaka_style_hd.Tickets.Operations.{find_accessible}
use kayaka_style_hd.Tickets.Merging.{merge_prepare, merge_commit, merge}
use kayaka_style_hd.Tickets.BulkAccess.{UniqueIds}
use kayaka_style_hd.Tickets.MergeForest.{merged_into, merged_of, Ends, merged_into-merge_commit}

-- A ticket that the service finds for an actor is the row with that id.
pub find_accessible-ticket_by_id :
    (db : Db) (a : Option Actor) (id : ℕ) (t : Ticket)
    → UniqueIds db.tickets
    → find_accessible db a id ≡ ok t
    → ticket_by_id id db ≡ some t
unfolding find_accessible
find_accessible-ticket_by_id db none id t unique e =
    found-eq-ok (ticket_by_id id db) ticket_not_found e
find_accessible-ticket_by_id db (some a) id t unique e =
    let p = λ (x : Ticket). x.id == id in
    let seen = found-eq-ok (find? (is_visible_id db a id) db.tickets) ticket_not_found e in
    let fits : p t ≡ true = ground (arith, find?-sound (is_visible_id db a id) db.tickets t seen) in
    elim (Option-cases (ticket_by_id id db)) [
      | inl gone ↦ absurd (
          ground (
            arith,
            is_some-find? p db.tickets,
            count_where_pos (is_visible_id db a id) p db.tickets t seen fits,
          ))
      | inr (u, there) ↦
          let same : t ≡ u =
            All-find? (λ y. p y ≡ true → y ≡ u) (is_visible_id db a id) db.tickets t
              (find?-unique p db.tickets u there (unique id)) seen fits in
          there ∙ ap some (sym same)
    ]

-- The guards of a merge, on the tickets that it has read.
pub record IsMergeable (db : Db) (s t : ℕ) (source target : Ticket) : Type 0 where
  pub source_row : ticket_by_id s db ≡ some source
  pub target_row : ticket_by_id t db ≡ some target
  pub source_id : source.id ≡ s
  pub target_id : target.id ≡ t
  pub differ : s ≢ t
  pub source_active : merged_into db s ≡ none
  pub target_active : merged_into db t ≡ none

row_id : (db : Db) (i : ℕ) (t : Ticket) → ticket_by_id i db ≡ some t → t.id ≡ i
row_id db i t e = (==_iff _ _).0 (find?-sound (λ x. x.id == i) db.tickets t e)

is_none-eq : (o : Option ℕ) → is_none o ≡ true → o ≡ none
is_none-eq none h = refl
is_none-eq (some x) h = cc

pub merge_prepare-IsMergeable :
    (db : Db) (a : Option Actor) (s t : ℕ) (source target : Ticket)
    → UniqueIds db.tickets
    → merge_prepare a s t db ≡ ok (source, target)
    → IsMergeable db s t source target
unfolding merge_prepare
merge_prepare-IsMergeable db a s t source target unique e =
    let (x, e₁, e₂) = bind-eq-ok (find_accessible db a s) _ e in
    let (y, e₃, e₄) = bind-eq-ok (find_accessible db a t) _ e₂ in
    let (apart, e₅) = require-eq-ok (not (x.id == y.id)) _ _ e₄ in
    let (free_x, e₆) = require-eq-ok (is_none x.merged_into_id) _ _ e₅ in
    let (free_y, e₇) = require-eq-ok (is_none y.merged_into_id) _ _ e₆ in
    let pair = ok-injective e₇ in
    let row_x = find_accessible-ticket_by_id db a s x unique e₁ in
    let row_y = find_accessible-ticket_by_id db a t y unique e₃ in
    let same_x : x ≡ source = ap (λ (p : Ticket × Ticket). p.0) pair in
    let same_y : y ≡ target = ap (λ (p : Ticket × Ticket). p.1) pair in
    record {
      source_row = row_x ∙ ap some same_x;
      target_row = row_y ∙ ap some same_y;
      source_id = ap (λ (z : Ticket). z.id) (sym same_x) ∙ row_id db s x row_x;
      target_id = ap (λ (z : Ticket). z.id) (sym same_y) ∙ row_id db t y row_y;
      differ = λ q. ground (arith, row_id db s x row_x, row_id db t y row_y);
      source_active = ap merged_of row_x ∙ is_none-eq x.merged_into_id free_x;
      target_active = ap merged_of row_y ∙ is_none-eq y.merged_into_id free_y;
    }

-- A chain that ends still ends after an edge from one active ticket to another.
Ends-edge :
    (db db' : Db) (s t : ℕ)
    → s ≢ t
    → merged_into db t ≡ none
    → ((i : ℕ) → merged_into db' i ≡ (if i == s then some t else merged_into db i))
    → (i : ℕ) → Ends db i
    → Ends db' i
Ends-edge db db' s t differ free edges i e = elim (Bool-cases (i == s)) [
  | inl f ↦ Ends.onward i t (edges i ∙ rw f) (Ends.active t (edges t ∙ ground arith))
  | inr f ↦ go e f
]
  where
    to_target : Ends db' t
    to_target = Ends.active t (edges t ∙ ground arith)

    go : {k : ℕ} → Ends db k → (k == s) ≡ false → Ends db' k
    go (Ends.active k h) f = Ends.active k (edges k ∙ ground arith)
    go (Ends.onward k m h r) f = Ends.onward k m (edges k ∙ rw f h) (elim (Bool-cases (m == s)) [
      | inl g ↦ Ends.onward m t (edges m ∙ rw g) to_target
      | inr g ↦ go r g
    ])

-- A merge that succeeds without another request between its parts leaves every chain of merges
-- that ended with an end, where ids are unique.
pub merge-Ends :
    (now s t : ℕ) (a : Option Actor) (db db' : Db)
    → UniqueIds db.tickets
    → merge now a s t db ≡ ok db'
    → (i : ℕ) → Ends db i
    → Ends db' i
unfolding merge
merge-Ends now s t a db db' unique e i ends =
    let ((source, target), e₁, e₂) = bind-eq-ok (merge_prepare a s t db) _ e in
    let m = merge_prepare-IsMergeable db a s t source target unique e₁ in
    let edges = λ (k : ℕ). merged_into-merge_commit now a source target k db db' e₂ in
    Ends-edge db db' s t m.differ m.target_active
      (λ k.
        edges k ∙ ap₂ (λ x y. if k == x then some y else merged_into db k) m.source_id m.target_id)
      i ends

no_end_of_cycle :
    (db : Db) (s t : ℕ)
    → merged_into db s ≡ some t
    → merged_into db t ≡ some s
    → {i : ℕ} → Ends db i
    → (i ≡ s) ⊎ (i ≡ t)
    → ⊥
no_end_of_cycle db s t f g (Ends.active i h) (inl e) =
    let x = subst (λ k. merged_into db k ≡ none) e h in cc
no_end_of_cycle db s t f g (Ends.active i h) (inr e) =
    let x = subst (λ k. merged_into db k ≡ none) e h in cc
no_end_of_cycle db s t f g (Ends.onward i m h r) (inl e) =
    let x = subst (λ k. merged_into db k ≡ some m) e h in
    let same : m ≡ t = ground arith in no_end_of_cycle db s t f g r (inr same)
no_end_of_cycle db s t f g (Ends.onward i m h r) (inr e) =
    let x = subst (λ k. merged_into db k ≡ some m) e h in
    let same : m ≡ s = ground arith in no_end_of_cycle db s t f g r (inl same)

-- Two merges in opposite directions that both do their reads before either transaction: once both
-- transactions commit, the tickets are merged into each other, and the chain from them has no end.
pub merge_race :
    (now later s t : ℕ) (a b : Option Actor) (source target source' target' : Ticket)
    (db db₁ db₂ : Db)
    → UniqueIds db.tickets
    → merge_prepare a s t db ≡ ok (source, target)
    → merge_prepare b t s db ≡ ok (source', target')
    → merge_commit now a source target db ≡ ok db₁
    → merge_commit later b source' target' db₁ ≡ ok db₂
    → (merged_into db₂ s ≡ some t) × (merged_into db₂ t ≡ some s) × ¬ (Ends db₂ s)
merge_race now later s t a b source target source' target' db db₁ db₂ unique p q c d =
    let m = merge_prepare-IsMergeable db a s t source target unique p in
    let n = merge_prepare-IsMergeable db b t s source' target' unique q in
    let first = merged_into-merge_commit now a source target s db db₁ c in
    let from_s = merged_into-merge_commit later b source' target' s db₁ db₂ d in
    let from_t = merged_into-merge_commit later b source' target' t db₁ db₂ d in
    let st : merged_into db₂ s ≡ some t =
      ground (arith, m.source_id, m.target_id, n.source_id, m.differ) in
    let ts : merged_into db₂ t ≡ some s = ground (arith, n.source_id, n.target_id) in
    (st, ts, λ r. no_end_of_cycle db₂ s t st ts r (inl refl))
