-- ===== src/Tickets/MergeForest.antt =====
-- The graph of merged tickets of apps/api/src/modules/tickets/tickets.service.ts: where each chain
-- of merges ends.
use mathlib.Core.Option
use kayaka_style_hd.Prelude.{
  ℕ, ◌+◌, ◌≡◌, refl, sym, ap, ◌∙◌, subst, inl, inr, true, Option, none, some, arith, ltb, ◌==◌,
  if◌then◌else◌, ==_iff, Bool-cases, is_some, count_where, find?-sound, find?-update_where,
}
use kayaka_style_hd.Tickets.Store.{
  bind-eq-ok, require-eq-ok, ok-injective, Ticket, Db, Actor, ok, ticket_by_id,
}
use kayaka_style_hd.Tickets.Access.{touch, is_visible_id}
use kayaka_style_hd.Tickets.Operations.{fence, update_ticket}
use kayaka_style_hd.Tickets.Merging.{fence_both, merge_commit, merge_tables}

abbrev pub merged_of : Option Ticket → Option ℕ
merged_of none = none
merged_of (some t) = t.merged_into_id

-- The ticket that a ticket is merged into.
abbrev pub merged_into : Db → ℕ → Option ℕ
merged_into db id = merged_of (ticket_by_id id db)

-- Following the merges from a ticket ends.
pub data Ends (db : Db) : ℕ → Type 0 where
  active : (id : ℕ) → merged_into db id ≡ none → Ends db id
  onward : (id m : ℕ) → merged_into db id ≡ some m → Ends db m → Ends db id

-- An update of one ticket that keeps the ids.
module _ (id : ℕ) (f : Ticket → Ticket) (same_id : (t : Ticket) → (f t).id ≡ t.id) (db : Db) where
  ticket-update_ticket :
      (i : ℕ)
      → ticket_by_id i (update_ticket id f db)
        ≡ Option.map (λ t. if t.id == id then f t else t) (ticket_by_id i db)
  ticket-update_ticket i =
      find?-update_where (λ t. t.id == i) (λ t. t.id == id) f db.tickets
        (λ t. ap (λ n. n == i) (same_id t))

merged_into-same :
    (id i : ℕ) (f : Ticket → Ticket) (db : Db)
    → ((t : Ticket) → (f t).id ≡ t.id)
    → ((t : Ticket) → (f t).merged_into_id ≡ t.merged_into_id)
    → merged_into (update_ticket id f db) i ≡ merged_into db i
merged_into-same id i f db h k = rw (ticket-update_ticket id f h db i) (go (ticket_by_id i db))
  where
    go :
        (o : Option Ticket)
        → merged_of (Option.map (λ t. if t.id == id then f t else t) o) ≡ merged_of o
    go none = refl
    go (some t) = elim (Bool-cases (t.id == id)) [ inl e ↦ rw e (k t) | inr e ↦ rw e ]

-- The edges after the writes of a merge.
merged_into-merge_tables :
    (now : ℕ) (source target : Ticket) (db : Db) (i : ℕ)
    → is_some (ticket_by_id source.id db) ≡ true
    → merged_into (merge_tables now source target db) i
      ≡ (if i == source.id then some target.id else merged_into db i)
unfolding merge_tables
merged_into-merge_tables now source target db i there =
    merged_into-same target.id i
      (λ t. record t {
        total_replies = t.total_replies + source.total_replies;
        last_activity_at = now;
      })
      (update_ticket source.id mark db) (λ t. refl) (λ t. refl)
    ∙ ap merged_of
        (find?-update_where (λ t. t.id == i) (λ t. t.id == source.id) mark db.tickets (λ t. refl))
    ∙ go (ticket_by_id i db) refl
  where
    mark : Ticket → Ticket
    mark t = record t { merged_into_id = some target.id; last_activity_at = now }

    go :
        (o : Option Ticket)
        → ticket_by_id i db ≡ o
        → merged_of (Option.map (λ t. if t.id == source.id then mark t else t) o)
          ≡ (if i == source.id then some target.id else merged_into db i)
    go none e = elim (Bool-cases (i == source.id)) [
      | inl f ↦
          let same : i ≡ source.id = (==_iff _ _).0 f in
          let gone : ticket_by_id source.id db ≡ none =
            subst (λ k. ticket_by_id k db ≡ none) same e in
          absurd (cc)
      | inr f ↦ rw (f, e)
    ]
    go (some t) e =
        let here : (t.id == i) ≡ true = find?-sound (λ x. x.id == i) db.tickets t e in
        let same : t.id ≡ i = (==_iff _ _).0 here in
        rw (e, same) (elim (Bool-cases (i == source.id)) [ inl f ↦ rw f | inr f ↦ rw f ])

-- A fence keeps the edges.
merged_into-fence :
    (now : ℕ) (a : Option Actor) (id i : ℕ) (db db' : Db)
    → fence now a id db ≡ ok db'
    → merged_into db' i ≡ merged_into db i
unfolding fence
merged_into-fence now none id i db db' e = ap (λ d. merged_into d i) (sym (ok-injective e))
merged_into-fence now (some a) id i db db' e =
    elim (Bool-cases (count_where (is_visible_id db a id) db.tickets == 1)) [
      | inl f ↦
          let same = ok-injective (rw f at e) in
          ap (λ d. merged_into d i) (sym same)
          ∙ ap merged_of (
              find?-update_where (λ t. t.id == i) (is_visible_id db a id) (touch now) db.tickets
                (λ t. refl))
          ∙ keeps (ticket_by_id i db)
      | inr f ↦ absurd (ground arith)
    ]
  where
    keeps :
        (o : Option Ticket)
        → merged_of (Option.map (λ t. if is_visible_id db a id t then touch now t else t) o)
          ≡ merged_of o
    keeps none = refl
    keeps (some t) = elim (Bool-cases (is_visible_id db a id t)) [ inl g ↦ rw g | inr g ↦ rw g ]

merged_into-fence_both :
    (now : ℕ) (a : Option Actor) (s t i : ℕ) (db db' : Db)
    → fence_both now a s t db ≡ ok db'
    → merged_into db' i ≡ merged_into db i
merged_into-fence_both now a s t i db db' e = elim (Bool-cases (ltb t s)) [
  | inl f ↦
      let (mid, e₁, e₂) = bind-eq-ok (fence now a t db) (fence now a s) (rw f at e) in
      merged_into-fence now a s i mid db' e₂ ∙ merged_into-fence now a t i db mid e₁
  | inr f ↦
      let (mid, e₁, e₂) = bind-eq-ok (fence now a s db) (fence now a t) (rw f at e) in
      merged_into-fence now a t i mid db' e₂ ∙ merged_into-fence now a s i db mid e₁
]

-- The edges after a transaction, on whatever tables it runs.
pub merged_into-merge_commit :
    (now : ℕ) (a : Option Actor) (source target : Ticket) (i : ℕ) (db db' : Db)
    → merge_commit now a source target db ≡ ok db'
    → merged_into db' i ≡ (if i == source.id then some target.id else merged_into db i)
unfolding merge_commit
merged_into-merge_commit now a source target i db db' e =
    let (mid, e₁, e₂) = bind-eq-ok (fence_both now a source.id target.id db) _ e in
    let (there, e₃) = require-eq-ok (is_some (ticket_by_id source.id mid)) _ _ e₂ in
    let (there', e₄) = require-eq-ok (is_some (ticket_by_id target.id mid)) _ _ e₃ in
    ap (λ d. merged_into d i) (sym (ok-injective e₄))
    ∙ merged_into-merge_tables now source target mid i there
    ∙ ap (λ o. if i == source.id then some target.id else o)
        (merged_into-fence_both now a source.id target.id i db mid e₁)
