-- ===== src/Inbound/Ends.antt =====
-- How the attempts of `processDelivery` in apps/api/src/modules/mail/inbound.service.ts end.
use kayaka_style_hd.Prelude.{
  ℕ, ◌≤◌, ◌≡◌, refl, ap, ◌∙◌, Bool, true, false, not, ◌&&◌, ◌||◌, Option, none, some, arith, ◌==◌,
  if◌then◌else◌, find?, count_where, update_where, count_where_mono, find?-update_where,
  count_where_pos,
}
use kayaka_style_hd.Inbound.Store.{
  same_state, normal_delivery_canary_configured, normal_delivery_canary, inbound_processing_enabled,
  accepted, processing, retry, EmailQueue, InboundDelivery, Ledger, Config,
}
use kayaka_style_hd.Inbound.Claim.{
  is_retired_queue, queue_of, normal_delivery_lifecycle_fence, is_canary_id, is_due, is_incomplete,
  queue_allows, queue_lock_allows, lock_allows, lock_delivery_queue_for_normal_processing,
  is_claimable, claimed, claim, after_claim, start_processing, settled_row, is_leased, settle,
  Settlement,
}
use kayaka_style_hd.Inbound.Workers.{has_id}
use kayaka_style_hd.Inbound.Finished.{settled_row-id}

abbrev pub row_of : ℕ → Ledger → Option InboundDelivery
unfolding find?
row_of id db = find? (has_id id) db.deliveries

abbrev pub UniqueIds : Ledger → Type 0
UniqueIds db = (id : ℕ) → count_where (has_id id) db.deliveries ≤ 1

abbrev pub in_play : InboundDelivery → Bool
in_play d = same_state d.state accepted || same_state d.state retry || same_state d.state processing

queue_not_retired :
    (q : Option EmailQueue) → queue_allows none q ≡ true → not (is_retired_queue q) ≡ true
queue_not_retired none h = refl
queue_not_retired (some q) h = ground arith

not_retired :
    (db : Ledger) (q : Option ℕ)
    → queue_lock_allows none db q ≡ true
    → not (is_retired_queue (queue_of db q)) ≡ true
unfolding queue_of
not_retired db none h = refl
not_retired db (some q) h = queue_not_retired (queue_of db (some q)) h

module _ (c : Config) (now token : ℕ) (db : Ledger) (d : InboundDelivery)
    (here : find? (has_id d.id) db.deliveries ≡ some d) (unique : UniqueIds db)
    (is_open : lock_allows none db (some d) ≡ true) (due : is_due now d ≡ true) where
  fence_open : normal_delivery_lifecycle_fence none db d ≡ true
  unfolding normal_delivery_lifecycle_fence queue_of
  fence_open = not_retired db d.queue_id is_open

  claimable : is_claimable none now d.id db d ≡ true
  unfolding normal_delivery_lifecycle_fence
  claimable = let f = fence_open in ground arith

  one : count_where (is_claimable none now d.id db) db.deliveries ≡ 1
  unfolding normal_delivery_lifecycle_fence
  one =
      let k = claimable in
      omega (
        arith,
        unique d.id,
        count_where_mono (is_claimable none now d.id db) (has_id d.id) db.deliveries
            (λ x p. ground arith),
        count_where_pos (has_id d.id) (is_claimable none now d.id db) db.deliveries d here
            claimable,
      )

  claimed_here :
      find?
        (has_id d.id)
        (update_where (is_claimable none now d.id db) (claimed now token) db.deliveries)
      ≡ some (claimed now token d)
  claimed_here =
      let k =
        find?-update_where (has_id d.id) (is_claimable none now d.id db) (claimed now token)
          db.deliveries (λ x. refl) in
      rw (here, claimable) at k

  claims : claim none now token d.id db ≡ (
    record db {
      deliveries = update_where (is_claimable none now d.id db) (claimed now token) db.deliveries;
    },
    count_where (is_claimable none now d.id db) db.deliveries,
  )
  unfolding claim lock_delivery_queue_for_normal_processing
  claims =
      let l : lock_delivery_queue_for_normal_processing none d.id db ≡ true =
        ap (lock_allows none db) here ∙ is_open in
      rw l refl

  pub after : Ledger
  after = record db {
    deliveries = update_where (is_claimable none now d.id db) (claimed now token) db.deliveries;
  }

  pub starts :
      inbound_processing_enabled c ≡ true
      → normal_delivery_canary_configured c ≡ false
      → normal_delivery_canary c ≡ none
      → start_processing c now token d.id db ≡ (after, some (claimed now token d))
  unfolding start_processing after
  starts on free none_set =
      let t : (inbound_processing_enabled c
            && not (is_incomplete c)
            && is_canary_id (normal_delivery_canary c) d.id)
          ≡ true =
        rw (on, free, none_set) refl in
      ap
        (λ b.
          if b
          then after_claim d.id (claim (normal_delivery_canary c) now token d.id db)
          else (db, none))
        t
      ∙ ap (λ k. after_claim d.id (claim k now token d.id db)) none_set
      ∙ ap (after_claim d.id) claims
      ∙ ap (λ n. (after, if n == 0 then none else find? (has_id d.id) after.deliveries)) one
      ∙ ap (λ o. (after, o)) claimed_here

  -- The row of a settlement in time.
  pub settled_here :
      (later : ℕ) (st : Settlement)
      → find? (has_id d.id) (settle later d.id token st after).deliveries
        ≡ some (settled_row later st (claimed now token d))
  unfolding settle after
  settled_here later st =
      let k =
        find?-update_where (has_id d.id) (is_leased d.id token) (settled_row later st)
          after.deliveries (λ x. let e = settled_row-id later st x in rw e refl) in
      let t : is_leased d.id token (claimed now token d) ≡ true = ground arith in
      rw (claimed_here, t) at k
