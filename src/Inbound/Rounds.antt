-- ===== src/Inbound/Rounds.antt =====
-- The rounds of `processDelivery` in apps/api/src/modules/mail/inbound.service.ts on one delivery.
use kayaka_style_hd.Prelude.{
  ℕ, suc, ◌+◌, ◌≤◌, ◌<◌, ◌≡◌, refl, sym, ap, ◌∙◌, subst, inl, inr, true, false, not, ◌&&◌, ◌||◌,
  Option, none, some, arith, ltb, leb, ◌==◌, Bool-cases, is_none, find?,
}
use kayaka_style_hd.Inbound.Store.{
  normal_delivery_canary_configured, normal_delivery_canary, inbound_processing_enabled,
  InboundDelivery, Ledger, Config, Canary,
}
use kayaka_style_hd.Inbound.Claim.{
  queue_of, is_due, queue_allows, queue_lock_allows, lock_allows, claimed, claim, start_processing,
  backoff, settle_work, settlement, settled_row, settle, settle_started, process_delivery, Work,
  storage_unavailable, routed_to, fails, Settlement, to_quarantine, to_retry, to_finish,
}
use kayaka_style_hd.Inbound.Workers.{has_id, is_outcome, IsOutcome}
use kayaka_style_hd.Inbound.Ends.{UniqueIds, in_play, starts, settled_here}
use kayaka_style_hd.Inbound.Growth.{start-Grows, settle-Grows}
use kayaka_style_hd.Inbound.Finished.{settled_row-id}

canary_free :
    (c : Config) → normal_delivery_canary_configured c ≡ false → normal_delivery_canary c ≡ none
unfolding normal_delivery_canary_configured normal_delivery_canary
canary_free c h = ground arith

-- A worker that lives, on a due delivery with no canary set, in a queue that is not retired: its row is
-- then what the settlement says, with one more attempt.
pub processed_row :
    (c : Config) (now later token : ℕ) (w : Work) (db : Ledger) (d : InboundDelivery)
    → inbound_processing_enabled c ≡ true
    → normal_delivery_canary_configured c ≡ false
    → UniqueIds db
    → find? (has_id d.id) db.deliveries ≡ some d
    → lock_allows none db (some d) ≡ true
    → is_due now d ≡ true
    → find? (has_id d.id) (process_delivery c now later token d.id w db).deliveries
      ≡ some (settled_row later (settlement c later (claimed now token d) w) (claimed now token d))
unfolding process_delivery
processed_row c now later token w db d on free u here opens due =
    ap (λ s. find? (has_id d.id) (settle_started c later token w s).deliveries)
      (starts c now token db d here u opens due on free (canary_free c free))
    ∙ settled_here c now token db d here u opens due later
        (settlement c later (claimed now token d) w)

settle_started-UniqueIds :
    (c : Config) (later token : ℕ) (w : Work) (s : Ledger × Option InboundDelivery)
    → UniqueIds s.0
    → UniqueIds (settle_started c later token w s)
unfolding settle settlement
settle_started-UniqueIds c later token w (l, none) v = v
settle_started-UniqueIds c later token w (l, some d) v =
    (settle-Grows later d.id token (settlement c later d w) l).unique v

processed-UniqueIds :
    (c : Config) (now later token id : ℕ) (w : Work) (db : Ledger)
    → UniqueIds db
    → UniqueIds (process_delivery c now later token id w db)
unfolding process_delivery
processed-UniqueIds c now later token id w db u =
    settle_started-UniqueIds c later token w (start_processing c now token id db)
      ((start-Grows c now token id db).unique u)

-- Deliveries of one row by workers that live, each at a time at which it is due.
pub data Rounds (c : Config) (id : ℕ) : ℕ → Ledger → Ledger → Type 0 where
  stop : (db : Ledger) → Rounds c id 0 db db
  round :
      (n now later token : ℕ) (w : Work) (db end : Ledger) (d : InboundDelivery)
      → IsOutcome w
      → find? (has_id id) db.deliveries ≡ some d
      → is_due now d ≡ true
      → Rounds c id n (process_delivery c now later token id w db) end
      → Rounds c id (suc n) db end

-- A settlement that leaves the row in play is a retry below the attempt budget.
StopsAt : ℕ → ℕ → Settlement → Type 0
StopsAt budget n (to_quarantine u) = Unit {0}
StopsAt budget n (to_retry t u) = n < budget
StopsAt budget n (to_finish state ticket post) = is_outcome state ≡ true

settle_work-StopsAt :
    (c : Config) (now n : ℕ) (w : Work)
    → IsOutcome w
    → StopsAt c.max_attempts n (settle_work c now n w)
unfolding StopsAt backoff
settle_work-StopsAt c now n storage_unavailable o = elim (Bool-cases (leb c.max_attempts n)) [
  | inl t ↦ rw t tt
  | inr t ↦ rw t (ground arith)
]
settle_work-StopsAt c now n (routed_to state ticket post) o = o
settle_work-StopsAt c now n (fails permanent u) o =
    elim (Bool-cases (permanent || leb c.max_attempts n)) [
      | inl t ↦ rw t tt
      | inr t ↦ rw t (ground arith)
    ]

settlement-StopsAt :
    (c : Config) (now : ℕ) (d : InboundDelivery) (w : Work)
    → IsOutcome w
    → StopsAt c.max_attempts d.attempts (settlement c now d w)
unfolding StopsAt settlement
settlement-StopsAt c now d w o =
    elim (Bool-cases (
      d.truncated
      || ltb c.max_attempts d.attempts
      || not d.has_raw_mime && is_none d.raw_storage_key)) [
        | inl t ↦ rw t tt
        | inr t ↦ rw t (settle_work-StopsAt c now d.attempts w o)
      ]

StopsAt-in_play :
    (budget n now : ℕ) (s : Settlement) (d : InboundDelivery)
    → StopsAt budget n s
    → in_play (settled_row now s d) ≡ true
    → n < budget
unfolding StopsAt
StopsAt-in_play budget n now (to_quarantine u) d h p = absurd (cc)
StopsAt-in_play budget n now (to_retry t u) d h p = h
StopsAt-in_play budget n now (to_finish state ticket post) d h p = ground (arith)

settled_row-attempts :
    (now : ℕ) (s : Settlement) (d : InboundDelivery) → (settled_row now s d).attempts ≡ d.attempts
settled_row-attempts now s d = ground arith

settled_row-queue :
    (now : ℕ) (s : Settlement) (d : InboundDelivery) → (settled_row now s d).queue_id ≡ d.queue_id
settled_row-queue now s d = ground arith

claim-queues :
    (k : Option Canary) (now token id : ℕ) (db : Ledger)
    → (claim k now token id db).0.queues ≡ db.queues
unfolding claim
claim-queues k now token id db = ground arith

settle_started-queues :
    (c : Config) (later token : ℕ) (w : Work) (s : Ledger × Option InboundDelivery)
    → (settle_started c later token w s).queues ≡ s.0.queues
unfolding settle settlement
settle_started-queues c later token w (l, none) = refl
settle_started-queues c later token w (l, some d) = refl

start-queues :
    (c : Config) (now token id : ℕ) (db : Ledger)
    → (start_processing c now token id db).0.queues ≡ db.queues
unfolding start_processing
start-queues c now token id db =
    ground (arith, claim-queues (normal_delivery_canary c) now token id db)

queue_lock_allows-same :
    (db end : Ledger) (q : Option ℕ)
    → end.queues ≡ db.queues
    → queue_lock_allows none end q ≡ queue_lock_allows none db q
unfolding queue_of
queue_lock_allows-same db end none e = refl
queue_lock_allows-same db end (some q) e =
    ap (λ qs. queue_allows none (find? (λ x. x.id == q) qs)) e

processed-lock_allows :
    (c : Config) (now later token id : ℕ) (w : Work) (db : Ledger) (d e : InboundDelivery)
    → e.queue_id ≡ d.queue_id
    → lock_allows none db (some d) ≡ true
    → lock_allows none (process_delivery c now later token id w db) (some e) ≡ true
unfolding process_delivery queue_of
processed-lock_allows c now later token id w db d e same h =
    ap (queue_lock_allows none (process_delivery c now later token id w db)) same
    ∙ queue_lock_allows-same db (process_delivery c now later token id w db) d.queue_id (
        settle_started-queues c later token w (start_processing c now token id db)
        ∙ start-queues c now token id db)
    ∙ h

attempts_end :
    (c : Config) (id n : ℕ) (db end : Ledger) (d : InboundDelivery)
    → inbound_processing_enabled c ≡ true
    → normal_delivery_canary_configured c ≡ false
    → UniqueIds db
    → d.id ≡ id
    → find? (has_id id) db.deliveries ≡ some d
    → lock_allows none db (some d) ≡ true
    → (in_play d ≡ true → d.attempts < c.max_attempts)
    → d.attempts ≤ c.max_attempts
    → Rounds c id n db end
    → d.attempts + n ≤ c.max_attempts
attempts_end c id _ _ _ d on free u e here opens w l (stop db) = omega arith
attempts_end c id _ _ _ d on free u e here opens w l
      (round m now later token work db end x o seen due others) =
    let same : x ≡ d = cc in
    let due_here : is_due now d ≡ true = subst (λ y. is_due now y ≡ true) same due in
    let below : d.attempts < c.max_attempts = w (ground arith) in
    let st = settlement c later (claimed now token d) work in
    let next = settled_row later st (claimed now token d) in
    let first =
      processed_row c now later token work db d on free u
        (subst (λ i. find? (has_id i) db.deliveries ≡ some d) (sym e) here) opens due_here in
    let count = settled_row-attempts later st (claimed now token d) in
    let more =
      attempts_end c id m (process_delivery c now later token id work db) end next on free
        (processed-UniqueIds c now later token id work db u)
        (settled_row-id later st (claimed now token d) ∙ e)
        (subst
          (λ i.
            find? (has_id i) (process_delivery c now later token i work db).deliveries ≡ some next)
          e first)
        (processed-lock_allows c now later token id work db d next
          (settled_row-queue later st (claimed now token d)) opens)
        (λ t.
          let k =
            StopsAt-in_play c.max_attempts (d.attempts + 1) later st (claimed now token d)
              (settlement-StopsAt c later (claimed now token d) work o) t in
          omega arith)
        (omega arith) others in
    omega arith

-- With normal delivery on, no canary and the row's queue not retired, at most as many rounds as the
-- attempt budget leaves find a delivery due, whatever its parsing and routing give: it does not stay in
-- play for ever.
pub attempts_bounded :
    (c : Config) (n : ℕ) (db end : Ledger) (d : InboundDelivery)
    → inbound_processing_enabled c ≡ true
    → normal_delivery_canary_configured c ≡ false
    → UniqueIds db
    → find? (has_id d.id) db.deliveries ≡ some d
    → lock_allows none db (some d) ≡ true
    → d.attempts < c.max_attempts
    → Rounds c d.id n db end
    → d.attempts + n ≤ c.max_attempts
attempts_bounded c n db end d on free u here opens l rounds =
    attempts_end c d.id n db end d on free u refl here opens (λ t. l) (omega arith) rounds
