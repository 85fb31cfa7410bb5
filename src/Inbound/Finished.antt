-- ===== src/Inbound/Finished.antt =====
-- Deliveries of apps/api/src/modules/mail/inbound.service.ts whose work is done stay done.
use kayaka_style_hd.Prelude.{ℕ, ◌≡◌, Bool, true, false, some, List, [], ◌∷◌, ◌++◌, arith, find?}
use kayaka_style_hd.Inbound.Store.{InboundDelivery, Canary}
use kayaka_style_hd.Inbound.Claim.{
  queue_of, normal_delivery_lifecycle_fence, settled_row, Settlement,
}
use kayaka_style_hd.Inbound.Access.{delivery_by_id_where_for_scope, MailDepartmentScope}
use kayaka_style_hd.Inbound.Operators.{is_replayable, is_promotable, MailTables, MailRequest}
use kayaka_style_hd.Inbound.Workers.{has_id, is_outcome}

abbrev pub is_done : InboundDelivery → Bool
is_done d = is_outcome d.state

-- What no later update changes in a row.
pub record IsKept (d e : InboundDelivery) : Type 0 where
  pub same_state : e.state ≡ d.state
  pub same_queue : e.queue_id ≡ d.queue_id
  pub same_ticket : e.ticket_id ≡ d.ticket_id
  pub same_post : e.post_id ≡ d.post_id
  pub same_attempts : e.attempts ≡ d.attempts
  pub same_time : e.processed_at ≡ d.processed_at
  pub same_lease : e.lease_owner ≡ d.lease_owner

-- Rows under a change: those that are done are kept.
pub record KeepsDone (before after : List InboundDelivery) : Type 0 where
  pub kept :
      (id : ℕ) (d : InboundDelivery)
      → find? (has_id id) before ≡ some d
      → is_done d ≡ true
      → (e : InboundDelivery) × (find? (has_id id) after ≡ some e) × IsKept d e

pub settled_row-id :
    (now : ℕ) (s : Settlement) (d : InboundDelivery) → (settled_row now s d).id ≡ d.id
settled_row-id now s d = ground arith

pub find?-front {ℓ} :
    {A : Type ℓ} (p : A → Bool) (xs ys : List A) (x : A)
    → find? p xs ≡ some x
    → find? p (xs ++ ys) ≡ some x
unfolding find?
find?-front p [] ys x h = absurd (cc)
find?-front p (y ∷ xs) ys x h = ground (arith, find?-front p xs ys x)

pub replayable-not_done :
    (db : MailTables) (s : MailDepartmentScope) (r : MailRequest) (d : InboundDelivery)
    → is_replayable db s r d ≡ true
    → is_done d ≡ false
unfolding normal_delivery_lifecycle_fence delivery_by_id_where_for_scope
replayable-not_done db s r d h = ground arith

pub promotable-not_done :
    (db : MailTables) (s : MailDepartmentScope) (r : MailRequest) (k : Canary) (d : InboundDelivery)
    → is_promotable db s r k d ≡ true
    → is_done d ≡ false
unfolding delivery_by_id_where_for_scope queue_of
promotable-not_done db s r k d h = ground arith
