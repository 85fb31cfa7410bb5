-- ===== src/Inbound/Once.antt =====
-- A delivery of apps/api/src/modules/mail/inbound.service.ts is finished at most once, whatever workers
-- lose their leases and settle late.
use kayaka_style_hd.Prelude.{
  ℕ, ◌≤◌, ◌<◌, ◌≡◌, refl, inl, inr, true, not, ◌&&◌, ◌||◌, List, [], ◌∷◌, ◌++◌, arith, ltb, leb,
  ◌==◌, Bool-cases, is_none, count_where, count_where_mono,
}
use kayaka_style_hd.Inbound.Store.{InboundDelivery, Ledger, Config}
use kayaka_style_hd.Inbound.Claim.{
  start_processing, backoff, settle_work, settlement, settled_row, is_leased, settle, heartbeat,
  Work, storage_unavailable, routed_to, fails, Settlement, to_quarantine, to_retry, to_finish,
}
use kayaka_style_hd.Inbound.Writers.{adopt_copies, prune_raw_mime, forget_raw_storage}
use kayaka_style_hd.Inbound.Workers.{
  adopt, prune, forget, has_id, is, is_finish, is_outcome, IsOutcome, finishing, on_ledger, System,
  Step, accept, start, start_nothing, beat, finish, die, replay, promote, Reach, begin, step,
}
use kayaka_style_hd.Inbound.Finished.{is_done, settled_row-id}
use kayaka_style_hd.Inbound.Growth.{
  adopt-Grows, prune-Grows, forget-Grows, done_for, count_where-update_where_ge,
  count_where-update_where_more, same-Grows, start-Grows, settle-Grows, replay-Grows, promote-Grows,
  heartbeat-Grows, accept-Grows, Grows,
}

-- In what a run has done, no delivery is finished more often than its row is.
pub record IsValid (s : System) : Type 0 where
  pub once :
      (id : ℕ)
      → count_where (is id) s.finished ≤ count_where (done_for id) s.tables.ledger.deliveries
  pub unique : (id : ℕ) → count_where (has_id id) s.tables.ledger.deliveries ≤ 1

grow-IsValid :
    (s t : System)
    → t.finished ≡ s.finished
    → Grows s.tables.ledger.deliveries t.tables.ledger.deliveries
    → IsValid s
    → IsValid t
grow-IsValid s t e g v = record {
  once = λ id. rw e (omega (arith, g.done id, v.once id));
  unique = g.unique v.unique;
}

Finishes : (s : Settlement) → Type 0
Finishes (to_finish state ticket post) = is_outcome state ≡ true
Finishes _ = Unit {0}

settle_work-Finishes :
    (c : Config) (now n : ℕ) (w : Work) → IsOutcome w → Finishes (settle_work c now n w)
unfolding Finishes backoff
settle_work-Finishes c now n storage_unavailable o = elim (Bool-cases (leb c.max_attempts n)) [
  | inl t ↦ rw t tt
  | inr t ↦ rw t tt
]
settle_work-Finishes c now n (routed_to state ticket post) o = o
settle_work-Finishes c now n (fails permanent u) o =
    elim (Bool-cases (permanent || leb c.max_attempts n)) [ inl t ↦ rw t tt | inr t ↦ rw t tt ]

settlement-Finishes :
    (c : Config) (now : ℕ) (d : InboundDelivery) (w : Work)
    → IsOutcome w
    → Finishes (settlement c now d w)
unfolding Finishes settlement
settlement-Finishes c now d w o =
    elim (Bool-cases (
      d.truncated
      || ltb c.max_attempts d.attempts
      || not d.has_raw_mime && is_none d.raw_storage_key)) [
        | inl t ↦ rw t tt
        | inr t ↦ rw t (settle_work-Finishes c now d.attempts w o)
      ]

Finishes-done :
    (now : ℕ) (s : Settlement) (d : InboundDelivery)
    → Finishes s
    → is_finish s ≡ true
    → is_done (settled_row now s d) ≡ true
unfolding Finishes
Finishes-done now (to_quarantine u) d f h = absurd (cc)
Finishes-done now (to_retry t u) d f h = absurd (cc)
Finishes-done now (to_finish state ticket post) d f h = f

-- A settlement counts as finishing only where its own row becomes done.
settle-once :
    (now id token : ℕ) (st : Settlement) (db : Ledger) (ids : List ℕ)
    → Finishes st
    → ((i : ℕ) → count_where (is i) ids ≤ count_where (done_for i) db.deliveries)
    → (i : ℕ)
    → count_where (is i) (finishing id token st db ids)
      ≤ count_where (done_for i) (settle now id token st db).deliveries
unfolding settle count_where
settle-once now id token st db ids f h i =
    let ge =
      count_where-update_where_ge (done_for i) (is_leased id token) (settled_row now st)
        db.deliveries (λ d p. ground arith) in
    elim (Bool-cases (is_finish st && ltb 0 (count_where (is_leased id token) db.deliveries))) [
      | inr t ↦ rw t (omega (arith, h i))
      | inl t ↦ elim (Bool-cases (id == i)) [
        | inr n ↦ rw (t, n) (omega (arith, h i))
        | inl e ↦
            let more =
              count_where-update_where_more (done_for i) (is_leased id token) (settled_row now st)
                db.deliveries (λ d p. ground arith)
                (λ d p.
                  let done = Finishes-done now st d f (ground arith) in
                  let same = settled_row-id now st d in ground arith) in
            let some_row : 0 < count_where (is_leased id token) db.deliveries = ground arith in
            rw (t, e) (omega (arith, h i))
      ]
    ]

Step-IsValid : (c : Config) {s t : System} → Step c s t → IsValid s → IsValid t
Step-IsValid c (accept s d a b e) v =
    grow-IsValid s
      (on_ledger s (record (s.tables.ledger) { deliveries = s.tables.ledger.deliveries ++ d ∷ [] }))
      refl (accept-Grows s.tables.ledger.deliveries d a) v
Step-IsValid c (start s now token id d e) v =
    grow-IsValid s
      (record (on_ledger s (start_processing c now token id s.tables.ledger).0) {
        holds = record { delivery = d; token = token } ∷ s.holds;
      })
      refl (start-Grows c now token id s.tables.ledger) v
Step-IsValid c (start_nothing s now token id) v =
    grow-IsValid s (on_ledger s (start_processing c now token id s.tables.ledger).0) refl
      (start-Grows c now token id s.tables.ledger) v
Step-IsValid c (beat s now id token) v =
    grow-IsValid s (on_ledger s (heartbeat now id token s.tables.ledger)) refl
      (heartbeat-Grows now id token s.tables.ledger) v
Step-IsValid c (finish s now before after h w e o) v =
    let g =
      settle-Grows now h.delivery.id h.token (settlement c now h.delivery w) s.tables.ledger in
    record {
      once =
          settle-once now h.delivery.id h.token (settlement c now h.delivery w) s.tables.ledger
            s.finished (settlement-Finishes c now h.delivery w o) v.once;
      unique = g.unique v.unique;
    }
Step-IsValid c (die s before after h e) v =
    grow-IsValid s (record s { holds = before ++ after }) refl
      (same-Grows s.tables.ledger.deliveries) v
Step-IsValid c (replay s now r db h) v =
    grow-IsValid s (record s { tables = db }) refl (replay-Grows c now r s.tables db h) v
Step-IsValid c (promote s now r db h) v =
    grow-IsValid s (record s { tables = db }) refl (promote-Grows c now r s.tables db h) v
Step-IsValid c (adopt s now is_copy ticket) v =
    grow-IsValid s (on_ledger s (adopt_copies now is_copy ticket s.tables.ledger)) refl
      (adopt-Grows now is_copy ticket s.tables.ledger) v
Step-IsValid c (prune s now is_old) v =
    grow-IsValid s (on_ledger s (prune_raw_mime now is_old s.tables.ledger)) refl
      (prune-Grows now is_old s.tables.ledger) v
Step-IsValid c (forget s now id key) v =
    grow-IsValid s (on_ledger s (forget_raw_storage now id key s.tables.ledger)) refl
      (forget-Grows now id key s.tables.ledger) v

Reach-IsValid : (c : Config) {s : System} → Reach c s → IsValid s
unfolding count_where
Reach-IsValid c (begin t e) = record {
  once = λ id. rw e (omega arith);
  unique = λ id. rw e (omega arith);
}
Reach-IsValid c (step r t) = Step-IsValid c t (Reach-IsValid c r)

-- In every run of workers, drains, operators and retention, a delivery's work is stored as its outcome at most
-- once.
pub finished_once :
    (c : Config) {s : System} → Reach c s → (id : ℕ) → count_where (is id) s.finished ≤ 1
finished_once c {s} r id =
    let v = Reach-IsValid c r in
    omega (
      arith,
      v.once id,
      v.unique id,
      count_where_mono (done_for id) (has_id id) s.tables.ledger.deliveries (λ d p. ground arith),
    )
