-- ===== src/Mail/Creation.antt =====
-- A new command in the outbox of apps/api/src/modules/mail/mail.service.ts.
use kayaka_style_hd.Prelude.{
  ℕ, ◌+◌, ◌≤◌, ◌≡◌, subst, inl, inr, false, List, [], ◌∷◌, ◌++◌, arith, ◌==◌, if◌then◌else◌,
  Bool-cases, All-append, count_where, count_where_mono, count_where-sole,
}
use kayaka_style_hd.Mail.Store.{queued, OutboundEmail}
use kayaka_style_hd.Mail.Workers.{has_id, is_for, is, System, IsNew}
use kayaka_style_hd.Mail.Rows.{waits_for, IsSound}
use kayaka_style_hd.Mail.Invariant.{IsValid}

Slots : System → List OutboundEmail → ℕ → Type 0
Slots s rs id =
    count_where (waits_for id) rs
      + count_where (is_for id) s.running
      + count_where (is id) s.accepted
    ≤ 1 + count_where (is id) s.retried

new-Slots : (s : System) (r : OutboundEmail) → IsNew r s → Slots s (s.db.emails ++ r ∷ []) r.id
unfolding Slots
new-Slots s r n =
    let h = n.unstored in
    let i = n.not_running in
    let j = n.not_accepted in
    let k = count_where_mono (waits_for r.id) (has_id r.id) s.db.emails (λ x p. ground arith) in
    let l : (if waits_for r.id r then 1 else 0) ≤ 1 = ground arith in
    omega (arith, count_where-sole (waits_for r.id) r s.db.emails)

new-IsSound :
    (accepted retried : List ℕ) (r : OutboundEmail)
    → r.state ≡ queued
    → r.attempts ≡ 0
    → r.lease_version ≡ 0
    → IsSound accepted retried r
new-IsSound accepted retried r q a l = record {
  counted = omega arith;
  bounded = rw (q, a) (omega arith);
  honest = λ e. let k = rw q at e in absurd (cc);
}

pub create-IsValid :
    (s : System) (r : OutboundEmail)
    → IsNew r s
    → IsValid s
    → IsValid (record s { db = record (s.db) { emails = s.db.emails ++ r ∷ [] } })
unfolding Slots
create-IsValid s r n v = record {
  slots = λ id. elim (Bool-cases (r.id == id)) [
    | inl t ↦ subst (Slots s (s.db.emails ++ r ∷ [])) (ground arith) (new-Slots s r n)
    | inr t ↦
        let h = count_where-sole (waits_for id) r s.db.emails in
        let k = v.slots id in
        let other : waits_for id r ≡ false = ground arith in let same = rw other at h in omega arith
  ];
  unique = λ id. elim (Bool-cases (r.id == id)) [
    | inl t ↦
        let same : r.id ≡ id = ground arith in
        let h = count_where-sole (has_id id) r s.db.emails in
        let k : count_where (has_id id) s.db.emails ≡ 0 =
          subst (λ i. count_where (has_id i) s.db.emails ≡ 0) same n.unstored in
        let l = rw t at h in omega arith
    | inr t ↦
        let h = count_where-sole (has_id id) r s.db.emails in
        let k = v.unique id in let l = rw t at h in omega arith
  ];
  sound =
      All-append (IsSound s.accepted s.retried) s.db.emails (r ∷ []) v.sound
        (new-IsSound s.accepted s.retried r n.is_queued n.no_attempts n.no_leases, tt);
  running_counted = v.running_counted;
  handed_counted = v.handed_counted;
  handed_accepted = v.handed_accepted;
}
