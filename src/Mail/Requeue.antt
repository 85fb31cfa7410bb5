-- ===== src/Mail/Requeue.antt =====
-- `retryOutboundEmail` in apps/api/src/modules/mail/mail.service.ts: it queues its one row again.
use kayaka_style_hd.Prelude.{
  ℕ, ◌+◌, ◌≤◌, ◌≡◌, refl, sym, subst, inl, inr, Bool, true, ◌&&◌, some, List, [], ◌∷◌, arith, ◌==◌,
  if◌then◌else◌, Bool-cases, All, count_where, update_where, count_where-update_where_same,
  count_where-update_where_le, count_where-update_where_le_add,
}
use kayaka_style_hd.Mail.Store.{OutboundEmail, MailDb, Config}
use kayaka_style_hd.Mail.Delivery.{requeued, is_retryable, retry_outbound_email}
use kayaka_style_hd.Mail.Workers.{has_id}
use kayaka_style_hd.Mail.Rows.{waits_for, AllSound, UniqueIds, IsSound}

pub record Requeues (accepted retried : List ℕ) (id : ℕ) (before after : List OutboundEmail)
    : Type 0 where
  pub slots :
      (i : ℕ)
      → count_where (waits_for i) after
        ≤ count_where (waits_for i) before + (if id == i then 1 else 0)
  pub unique : UniqueIds before → UniqueIds after
  pub sound : AllSound accepted retried before → AllSound accepted (id ∷ retried) after

requeued-slots :
    (visible : OutboundEmail → Bool) (id : ℕ) (rs : List OutboundEmail)
    → count_where (λ r. visible r && is_retryable id r) rs ≡ 1
    → (i : ℕ)
    → count_where (waits_for i) (update_where (λ r. visible r && is_retryable id r) requeued rs)
      ≤ count_where (waits_for i) rs + (if id == i then 1 else 0)
requeued-slots visible id rs h i = elim (Bool-cases (id == i)) [
  | inl t ↦ rw t (
      omega (
        arith,
        count_where-update_where_le_add (waits_for i) (λ r. visible r && is_retryable id r) requeued
            rs,
      ))
  | inr t ↦ rw t (
      omega (
        arith,
        count_where-update_where_le (waits_for i) (λ r. visible r && is_retryable id r) requeued rs
            (λ r p w. ground arith),
      ))
]

-- A row under an update, where the predicate grows too.
All-update_where_into {ℓ κ μ} :
    {A : Type ℓ} (P : A → Type κ) (Q : A → Type μ) (p : A → Bool) (f : A → A) (xs : List A)
    → ((x : A) → p x ≡ true → P x → Q (f x))
    → ((x : A) → P x → Q x)
    → All P xs
    → All Q (update_where p f xs)
unfolding update_where
All-update_where_into P Q p f [] h k a = tt
All-update_where_into P Q p f (x ∷ xs) h k a = elim (Bool-cases (p x)) [
  | inl e ↦ rw e (h x e a.0, All-update_where_into P Q p f xs h k a.1)
  | inr e ↦ rw e (k x a.0, All-update_where_into P Q p f xs h k a.1)
]

retry_outbound_email_lem :
    (c : Config) (visible : OutboundEmail → Bool) (id : ℕ) (db after : MailDb)
    → retry_outbound_email c visible id db ≡ some after
    → (count_where (λ r. visible r && is_retryable id r) db.emails ≡ 1)
      × (after ≡ record db {
        emails = update_where (λ r. visible r && is_retryable id r) requeued db.emails;
      })
unfolding retry_outbound_email
retry_outbound_email_lem c visible id db after h = ground arith

module _ {accepted retried : List ℕ} where
  pub more_retried-IsSound :
      (id : ℕ) (r : OutboundEmail) → IsSound accepted retried r → IsSound accepted (id ∷ retried) r
  unfolding count_where
  more_retried-IsSound id r s = record {
    counted = s.counted;
    bounded = let b = s.bounded in omega arith;
    honest = s.honest;
  }

  pub more_accepted-IsSound :
      (id : ℕ) (r : OutboundEmail) → IsSound accepted retried r → IsSound (id ∷ accepted) retried r
  unfolding count_where
  more_accepted-IsSound id r s = record {
    counted = s.counted;
    bounded = s.bounded;
    honest = λ e. let h = s.honest e in omega arith;
  }

  requeued-IsSound :
      (id : ℕ) (r : OutboundEmail)
      → is_retryable id r ≡ true
      → IsSound accepted retried r
      → IsSound accepted (id ∷ retried) (requeued r)
  unfolding count_where
  requeued-IsSound id r p s = record {
    counted = s.counted;
    bounded = let b = s.bounded in let n : (id == r.id) ≡ true = ground arith in rw n (omega arith);
    honest = λ e. absurd (cc);
  }

  requeued-Requeues :
      (visible : OutboundEmail → Bool) (id : ℕ) (rs : List OutboundEmail)
      → count_where (λ r. visible r && is_retryable id r) rs ≡ 1
      → Requeues accepted retried id rs
          (update_where (λ r. visible r && is_retryable id r) requeued rs)
  requeued-Requeues visible id rs h =
      let test = λ (r : OutboundEmail). visible r && is_retryable id r in
      record {
        slots = requeued-slots visible id rs h;
        unique =
            λ u i. rw (count_where-update_where_same (has_id i) test requeued rs λ r p. refl) (u i);
        sound =
            All-update_where_into (IsSound accepted retried) (IsSound accepted (id ∷ retried)) test
              requeued rs (λ r p s. requeued-IsSound id r (ground arith) s)
              (more_retried-IsSound id);
      }

  -- A successful retry of an operator.
  pub retry-Requeues :
      (c : Config) (visible : OutboundEmail → Bool) (id : ℕ) (db after : MailDb)
      → retry_outbound_email c visible id db ≡ some after
      → Requeues accepted retried id db.emails after.emails
  retry-Requeues c visible id db after h =
      let r = retry_outbound_email_lem c visible id db after h in
      subst (λ d. Requeues accepted retried id db.emails d.emails) (sym r.1)
        (requeued-Requeues visible id db.emails r.0)
