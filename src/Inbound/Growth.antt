-- ===== src/Inbound/Growth.antt =====
-- No update of the ledger of apps/api/src/modules/mail/inbound.service.ts and email-queue.service.ts
-- takes back a finished delivery.
use kayaka_style_hd.Prelude.{
  ok, ℕ, ◌+◌, ◌≤◌, ◌≡◌, refl, sym, subst, inl, inr, Bool, true, false, not, ◌&&◌, some, List, [],
  ◌∷◌, ◌++◌, arith, ◌==◌, Bool-cases, count_where, update_where, count_where-update_where_same,
  count_where-sole,
}
use kayaka_style_hd.Inbound.Store.{
  normal_delivery_canary, inbound_processing_enabled, InboundDelivery, Ledger, Config,
}
use kayaka_style_hd.Inbound.Claim.{
  lease_ms, is_canary_id, is_incomplete, lock_delivery_queue_for_normal_processing, is_claimable,
  claimed, claim, start_processing, settled_row, is_leased, settle, heartbeat, Settlement,
}
use kayaka_style_hd.Inbound.Operators.{
  replayed, is_replayable, replay_quarantined, promoted, is_promotable, promote_captured,
  MailTables, MailRequest,
}
use kayaka_style_hd.Inbound.Store.{is_option}
use kayaka_style_hd.Inbound.Writers.{
  owned, adopt_copies, is_terminal, without_raw_mime, prune_raw_mime, without_key,
  forget_raw_storage,
}
use kayaka_style_hd.Inbound.Workers.{has_id}
use kayaka_style_hd.Inbound.Replay.{replay_quarantined-eq-ok, promote_captured-eq-ok}
use kayaka_style_hd.Inbound.Finished.{
  is_done, settled_row-id, replayable-not_done, promotable-not_done,
}

abbrev pub done_for : ℕ → InboundDelivery → Bool
done_for id d = d.id == id && is_done d

pub count_where-update_where_ge {ℓ} :
    {A : Type ℓ} (q p : A → Bool) (f : A → A) (xs : List A)
    → ((x : A) → p x ≡ true → q x ≡ false)
    → count_where q xs ≤ count_where q (update_where p f xs)
unfolding count_where update_where
count_where-update_where_ge q p f [] h = omega arith
count_where-update_where_ge q p f (x ∷ xs) h =
    ground (arith, h x, count_where-update_where_ge q p f xs h)

-- Rows that an update takes into the test are new there.
pub count_where-update_where_more {ℓ} :
    {A : Type ℓ} (q p : A → Bool) (f : A → A) (xs : List A)
    → ((x : A) → p x ≡ true → q x ≡ false)
    → ((x : A) → p x ≡ true → q (f x) ≡ true)
    → count_where q xs + count_where p xs ≤ count_where q (update_where p f xs)
unfolding count_where update_where
count_where-update_where_more q p f [] h k = omega arith
count_where-update_where_more q p f (x ∷ xs) h k =
    ground (arith, h x, k x, count_where-update_where_more q p f xs h k)

pub record Grows (before after : List InboundDelivery) : Type 0 where
  pub done : (id : ℕ) → count_where (done_for id) before ≤ count_where (done_for id) after
  pub unique :
      ((id : ℕ) → count_where (has_id id) before ≤ 1) → (id : ℕ) → count_where (has_id id) after ≤ 1

update-Grows :
    (p : InboundDelivery → Bool) (f : InboundDelivery → InboundDelivery) (ds : List InboundDelivery)
    → ((d : InboundDelivery) → (f d).id ≡ d.id)
    → ((d : InboundDelivery) → p d ≡ true → is_done d ≡ false)
    → Grows ds (update_where p f ds)
update-Grows p f ds same q = record {
  done =
      λ id. count_where-update_where_ge (done_for id) p f ds (λ d t. let n = q d t in ground arith);
  unique = λ u id.
      rw (count_where-update_where_same (has_id id) p f ds λ d t. let h = same d in rw h refl)
        (u id);
}

-- An update that keeps the ids and the states.
state-Grows :
    (p : InboundDelivery → Bool) (f : InboundDelivery → InboundDelivery) (ds : List InboundDelivery)
    → ((d : InboundDelivery) → (f d).id ≡ d.id)
    → ((d : InboundDelivery) → (f d).state ≡ d.state)
    → Grows ds (update_where p f ds)
state-Grows p f ds same keeps = record {
  done = λ id.
      let e =
        count_where-update_where_same (done_for id) p f ds
          (λ d t. let h = same d in let k = keeps d in rw (h, k) refl) in
      omega (arith, e);
  unique = λ u id.
      rw (count_where-update_where_same (has_id id) p f ds λ d t. let h = same d in rw h refl)
        (u id);
}

pub adopt-Grows :
    (now : ℕ) (is_copy : InboundDelivery → Bool) (ticket : ℕ) (db : Ledger)
    → Grows db.deliveries (adopt_copies now is_copy ticket db).deliveries
unfolding adopt_copies
adopt-Grows now is_copy ticket db =
    state-Grows is_copy (owned now ticket) db.deliveries (λ d. refl) (λ d. refl)

pub prune-Grows :
    (now : ℕ) (is_old : InboundDelivery → Bool) (db : Ledger)
    → Grows db.deliveries (prune_raw_mime now is_old db).deliveries
unfolding prune_raw_mime
prune-Grows now is_old db =
    state-Grows (λ d. is_terminal d && is_old d) (without_raw_mime now) db.deliveries (λ d. refl)
      (λ d. refl)

pub forget-Grows :
    (now id key : ℕ) (db : Ledger)
    → Grows db.deliveries (forget_raw_storage now id key db).deliveries
unfolding forget_raw_storage
forget-Grows now id key db =
    state-Grows (λ d. d.id == id && is_option d.raw_storage_key key) (without_key now) db.deliveries
      (λ d. refl) (λ d. refl)

pub same-Grows : (ds : List InboundDelivery) → Grows ds ds
same-Grows ds = record { done = λ id. omega arith; unique = λ u. u }

pub start-Grows :
    (c : Config) (now token id : ℕ) (db : Ledger)
    → Grows db.deliveries (start_processing c now token id db).0.deliveries
unfolding start_processing claim
start-Grows c now token id db =
    let k = normal_delivery_canary c in
    elim (Bool-cases (inbound_processing_enabled c && not (is_incomplete c) && is_canary_id k id)) [
      | inr t ↦ rw t (same-Grows db.deliveries)
      | inl t ↦ elim (Bool-cases (lock_delivery_queue_for_normal_processing k id db)) [
        | inl l ↦
            rw (t, l)
              (update-Grows (is_claimable k now id db) (claimed now token) db.deliveries (λ d. refl)
                (λ d p. ground arith))
        | inr l ↦ rw (t, l) (same-Grows db.deliveries)
      ]
    ]

pub settle-Grows :
    (now id token : ℕ) (s : Settlement) (db : Ledger)
    → Grows db.deliveries (settle now id token s db).deliveries
unfolding settle
settle-Grows now id token s db =
    update-Grows (is_leased id token) (settled_row now s) db.deliveries (settled_row-id now s)
      (λ d p. ground arith)

pub replay-Grows :
    (c : Config) (now : ℕ) (r : MailRequest) (db after : MailTables)
    → replay_quarantined c now r db ≡ ok after
    → Grows db.ledger.deliveries after.ledger.deliveries
replay-Grows c now r db after h =
    let p = replay_quarantined-eq-ok c now r db after h in
    subst (Grows db.ledger.deliveries) (sym p.written) (
      update-Grows (is_replayable db p.scope r) (replayed now) db.ledger.deliveries (λ d. refl)
        (replayable-not_done db p.scope r))

pub promote-Grows :
    (c : Config) (now : ℕ) (r : MailRequest) (db after : MailTables)
    → promote_captured c now r db ≡ ok after
    → Grows db.ledger.deliveries after.ledger.deliveries
promote-Grows c now r db after h =
    let p = promote_captured-eq-ok c now r db after h in
    subst (Grows db.ledger.deliveries) (sym p.written) (
      update-Grows (is_promotable db p.scope r p.canary) (promoted now) db.ledger.deliveries
        (λ d. refl) (promotable-not_done db p.scope r p.canary))

pub heartbeat-Grows :
    (now id token : ℕ) (db : Ledger) → Grows db.deliveries (heartbeat now id token db).deliveries
unfolding heartbeat
heartbeat-Grows now id token db =
    update-Grows (is_leased id token)
      (λ d. record d { lease_expires_at = some (now + lease_ms); updated_at = now }) db.deliveries
      (λ d. refl) (λ d p. ground arith)

pub accept-Grows :
    (ds : List InboundDelivery) (d : InboundDelivery)
    → count_where (has_id d.id) ds ≡ 0
    → Grows ds (ds ++ d ∷ [])
accept-Grows ds d h = record {
  done = λ id. omega (arith, count_where-sole (done_for id) d ds);
  unique = λ u id. elim (Bool-cases (d.id == id)) [
    | inl t ↦
        let same : d.id ≡ id = ground arith in
        let none_before = subst (λ i. count_where (has_id i) ds ≡ 0) same h in
        let l = rw t at (count_where-sole (has_id id) d ds) in omega arith
    | inr t ↦ let l = rw t at (count_where-sole (has_id id) d ds) in omega (arith, u id)
  ];
}
