-- ===== src/Inbound/OneWinner.antt =====
-- One delivery wins a Message-ID in apps/api/src/modules/mail/inbound.service.ts, whatever other
-- deliveries claim and finalize in between.
use kayaka_style_hd.Prelude.{
  ok, require-eq-ok, ok-injective, ℕ, ◌≡◌, refl, sym, ap, ◌∙◌, subst, inl, inr, Option, none, some,
  List, arith, ◌==◌, if◌then◌else◌, Bool-cases, any, find?, count_where, find?-update_where,
}
use kayaka_style_hd.Common.Email.{Text}
use kayaka_style_hd.Inbound.Identity.{
  has_hash, collides, insert_claim, judge, judged, claim_real_message, is_won_by, finalize_claim,
  MessageClaim, ClaimRequest, LogicalClaimResult, winner, lease_lost, claim_changed,
}
use kayaka_style_hd.Inbound.Finished.{find?-front}

-- Claims and finalizations of any workers, one transaction after another.
pub data Later : List MessageClaim → List MessageClaim → Type 0 where
  now : {cs : List MessageClaim} → Later cs cs
  claims :
      {cs ds : List MessageClaim} (es : List MessageClaim) (r : ClaimRequest)
      (l : LogicalClaimResult)
      → Later cs ds
      → claim_real_message r ds ≡ ok (es, l)
      → Later cs es
  finalizes :
      {cs ds : List MessageClaim} (es : List MessageClaim) (h : Text) (delivery_id : ℕ)
      (ticket_id post_id : Option ℕ)
      → Later cs ds
      → finalize_claim h delivery_id ticket_id post_id ds ≡ ok es
      → Later cs es

-- A claim that holds a hash, and its winner.
abbrev pub IsWon : Text → ℕ → List MessageClaim → Type 0
IsWon h n cs = (c : MessageClaim) × (find? (has_hash h) cs ≡ some c) × (c.winner_delivery_id ≡ n)

insert_claim-IsWon :
    (r : ClaimRequest) (h : Text) (n : ℕ) (cs : List MessageClaim)
    → IsWon h n cs
    → IsWon h n (insert_claim r cs)
unfolding insert_claim
insert_claim-IsWon r h n cs (c, f, w) = elim (Bool-cases (any (collides r) cs)) [
  | inl t ↦ rw t (c, f, w)
  | inr t ↦ rw t (c, find?-front (has_hash h) cs _ c f, w)
]

judged-eq-ok :
    (r : ClaimRequest) (cs es : List MessageClaim) (o : Option MessageClaim)
    (l : LogicalClaimResult)
    → judged r cs o ≡ ok (es, l)
    → (c : MessageClaim) × (o ≡ some c) × (es ≡ cs) × (l ≡ judge r c)
unfolding judge
judged-eq-ok r cs es none l h = absurd (cc)
judged-eq-ok r cs es (some c) l h =
    let p = ok-injective (require-eq-ok r.is_lease_held lease_lost _ h).1 in
    (c, refl, sym (ap (λ x. x.0) p), sym (ap (λ x. x.1) p))

claim-IsWon :
    (r : ClaimRequest) (h : Text) (n : ℕ) (cs es : List MessageClaim) (l : LogicalClaimResult)
    → claim_real_message r cs ≡ ok (es, l)
    → IsWon h n cs
    → IsWon h n es
unfolding claim_real_message
claim-IsWon r h n cs es l e w =
    let (c, o, same, j) =
      judged-eq-ok r (insert_claim r cs) es (find? (has_hash r.message_id_hash) (insert_claim r cs))
        l e in
    subst (IsWon h n) (sym same) (insert_claim-IsWon r h n cs w)

finalize-IsWon :
    (k : Text) (d : ℕ) (ticket_id post_id : Option ℕ) (h : Text) (n : ℕ) (cs es : List MessageClaim)
    → finalize_claim k d ticket_id post_id cs ≡ ok es
    → IsWon h n cs
    → IsWon h n es
unfolding finalize_claim
finalize-IsWon k d ticket_id post_id h n cs es e (c, f, w) =
    let same =
      ok-injective (require-eq-ok (count_where (is_won_by k d) cs == 1) claim_changed _ e).1 in
    let g =
      find?-update_where (has_hash h) (is_won_by k d)
        (λ c. record c { ticket_id = ticket_id; post_id = post_id }) cs (λ x. refl) in
    let m = rw f at g in
    subst (IsWon h n) same (
      if is_won_by k d c then record c { ticket_id = ticket_id; post_id = post_id } else c,
      m,
      ground (arith),
    )

later-IsWon :
    (h : Text) (n : ℕ) {cs es : List MessageClaim} → Later cs es → IsWon h n cs → IsWon h n es
later-IsWon h n now w = w
later-IsWon h n (claims es r l b e) w = claim-IsWon r h n _ es l e (later-IsWon h n b w)
later-IsWon h n (finalizes es k d t p b e) w =
    finalize-IsWon k d t p h n _ es e (later-IsWon h n b w)

winner-IsWon :
    (r : ClaimRequest) (cs es : List MessageClaim)
    → claim_real_message r cs ≡ ok (es, winner)
    → IsWon r.message_id_hash r.delivery_id es
unfolding claim_real_message judge
winner-IsWon r cs es e =
    let (c, o, same, j) =
      judged-eq-ok r (insert_claim r cs) es (find? (has_hash r.message_id_hash) (insert_claim r cs))
        winner e in
    (c, ap (find? (has_hash r.message_id_hash)) same ∙ o, ground arith)

-- If a delivery wins a Message-ID, no other delivery ever wins it: any that claims it later, whatever
-- claims and finalizations come between, wins only if it is the same delivery.
pub one_winner :
    (r q : ClaimRequest) (cs ds es fs : List MessageClaim)
    → claim_real_message r cs ≡ ok (ds, winner)
    → Later ds es
    → claim_real_message q es ≡ ok (fs, winner)
    → q.message_id_hash ≡ r.message_id_hash
    → q.delivery_id ≡ r.delivery_id
one_winner r q cs ds es fs first between second same =
    let (c, f, w) =
      claim-IsWon q r.message_id_hash r.delivery_id es fs winner second
        (later-IsWon r.message_id_hash r.delivery_id between (winner-IsWon r cs ds first)) in
    let (d, g, v) = subst (λ h. IsWon h q.delivery_id fs) same (winner-IsWon q es fs second) in
    let one : c ≡ d = cc in let k = ap (λ x. x.winner_delivery_id) one in omega arith
