-- ===== src/Inbound/Identity.antt =====
-- The logical claim of a Message-ID: `claimRealMessage` of apps/api/src/modules/mail/inbound.service.ts
-- and the claim's part of `finalize`. Hashes are arguments; the columns of the route are left out.
use kayaka_style_hd.Prelude.{
  Outcome, ok, err, ◌>>◌, require, ℕ, Bool, false, not, ◌&&◌, ◌||◌, Option, none, some, List, [],
  ◌∷◌, ◌++◌, ◌==◌, if◌then◌else◌, any, find?, count_where, update_where,
}
use kayaka_style_hd.Common.Email.{Text, same_text}

pub record MessageClaim : Type 0 where
  pub message_id_hash : Text
  pub semantic_hash : Option Text
  pub semantic_hash_version : ℕ
  pub winner_delivery_id : ℕ
  pub ticket_id : Option ℕ
  pub post_id : Option ℕ

pub record ClaimRequest : Type 0 where
  pub delivery_id : ℕ
  pub message_id_hash : Text
  pub semantic_hash : Text
  -- Whether the write of the delivery's identity finds its row under the worker's lease.
  pub is_lease_held : Bool

pub data LogicalClaimResult : Type 0 where
  winner conflict : LogicalClaimResult
  duplicate : (ticket_id : Option ℕ) → LogicalClaimResult

pub data IdentityError : Type 0 where
  unreadable_claim lease_lost claim_changed : IdentityError

abbrev pub has_hash : Text → MessageClaim → Bool
has_hash h c = same_text c.message_id_hash h

-- A row that either unique column of the new one meets.
abbrev pub collides : ClaimRequest → MessageClaim → Bool
collides r c = has_hash r.message_id_hash c || c.winner_delivery_id == r.delivery_id

-- `createMany` with `skipDuplicates`.
unfoldable pub insert_claim : ClaimRequest → List MessageClaim → List MessageClaim
insert_claim r cs =
    if any (collides r) cs
    then cs
    else (cs
        ++ record {
          message_id_hash = r.message_id_hash;
          semantic_hash = some r.semantic_hash;
          semantic_hash_version = 1;
          winner_delivery_id = r.delivery_id;
          ticket_id = none;
          post_id = none;
        }
          ∷ [])

abbrev pub has_semantics : Text → MessageClaim → Bool
has_semantics h c = c.semantic_hash_version == 1 && is_same c.semantic_hash
  where
    is_same : Option Text → Bool
    is_same none = false
    is_same (some t) = same_text t h

unfoldable pub judge : ClaimRequest → MessageClaim → LogicalClaimResult
judge r c =
    if not (has_semantics r.semantic_hash c)
    then conflict
    else if c.winner_delivery_id == r.delivery_id
    then winner
    else duplicate c.ticket_id

abbrev pub judged :
    ClaimRequest
    → List MessageClaim
    → Option MessageClaim
    → Outcome IdentityError (List MessageClaim × LogicalClaimResult)
unfolding judge
judged r cs none = err unreadable_claim
judged r cs (some c) = require r.is_lease_held lease_lost >> ok (cs, judge r c)

unfoldable pub claim_real_message :
    ClaimRequest
    → List MessageClaim
    → Outcome IdentityError (List MessageClaim × LogicalClaimResult)
unfolding insert_claim judged find?
claim_real_message r cs =
    let inserted = insert_claim r cs in
    judged r inserted (find? (has_hash r.message_id_hash) inserted)

abbrev pub is_won_by : Text → ℕ → MessageClaim → Bool
is_won_by h delivery_id c = has_hash h c && c.winner_delivery_id == delivery_id

-- `finalize`, as far as it writes the claim.
unfoldable pub finalize_claim :
    Text
    → ℕ
    → (ticket_id post_id : Option ℕ) → List MessageClaim
    → Outcome IdentityError (List MessageClaim)
unfolding count_where update_where
finalize_claim h delivery_id ticket_id post_id cs =
    require (count_where (is_won_by h delivery_id) cs == 1) claim_changed
    >> ok (
        update_where (is_won_by h delivery_id)
          (λ c. record c { ticket_id = ticket_id; post_id = post_id }) cs)
