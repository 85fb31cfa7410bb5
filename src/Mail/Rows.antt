-- ===== src/Mail/Rows.antt =====
-- What the updates of the outbox keep of its rows, and of the number of rows that wait for a worker.
use kayaka_style_hd.Prelude.{
  ℕ, ◌+◌, ◌≤◌, ◌<◌, ◌≡◌, refl, Bool, true, false, ◌&&◌, ◌||◌, Option, List, arith, ◌==◌,
  if◌then◌else◌, All, count_where, update_where, count_where-update_where_same,
  count_where-update_where_le, All-update_where,
}
use kayaka_style_hd.Mail.Store.{
  same_state, OutboundEmailState, queued, retry, sent, Diagnostic, OutboundEmail,
}
use kayaka_style_hd.Mail.Outbox.{outbox_max_attempts, released, claimed, is_claimable, accepted_row}
use kayaka_style_hd.Mail.Workers.{has_id, is}

abbrev pub waits : OutboundEmail → Bool
waits r = same_state r.state queued || same_state r.state retry

abbrev pub waits_for : ℕ → OutboundEmail → Bool
waits_for id r = r.id == id && waits r

-- A row against the past: attempts and leases are counted alike, there are at most five attempts but
-- for the operators' retries, and a row is `SENT` only after an acceptance.
pub record IsSound (accepted retried : List ℕ) (r : OutboundEmail) : Type 0 where
  pub counted : r.attempts ≡ r.lease_version
  pub bounded :
      r.attempts + (if waits r then 1 else 0) ≤ outbox_max_attempts + count_where (is r.id) retried
  pub honest : same_state r.state sent ≡ true → 0 < count_where (is r.id) accepted

abbrev pub AllSound : List ℕ → List ℕ → List OutboundEmail → Type 0
AllSound accepted retried rs = All (IsSound accepted retried) rs

abbrev pub UniqueIds : List OutboundEmail → Type 0
UniqueIds rs = (id : ℕ) → count_where (has_id id) rs ≤ 1

module _ (accepted retried : List ℕ) where
  -- An ended lease that does not queue the row again.
  pub released-IsSound :
      (r : OutboundEmail) (state : OutboundEmailState) (next : Option ℕ) (why : Option Diagnostic)
      → same_state state queued ≡ false
      → same_state state retry ≡ false
      → same_state state sent ≡ false
      → IsSound accepted retried r
      → IsSound accepted retried (released state next why r)
  released-IsSound r state next why h k l s = record {
    counted = s.counted;
    bounded = let b = s.bounded in ground arith;
    honest = λ e. absurd (cc);
  }

  pub claimed-IsSound :
      (now owner id : ℕ) (r : OutboundEmail)
      → is_claimable now id r ≡ true
      → IsSound accepted retried r
      → IsSound accepted retried (claimed now owner r)
  claimed-IsSound now owner id r p s = record {
    counted = let c = s.counted in omega arith;
    bounded = let b = s.bounded in ground arith;
    honest = λ e. absurd (cc);
  }

  pub accepted-IsSound :
      (now : ℕ) (r : OutboundEmail)
      → 0 < count_where (is r.id) accepted
      → IsSound accepted retried r
      → IsSound accepted retried (accepted_row now r)
  accepted-IsSound now r h s = record {
    counted = s.counted;
    bounded = let b = s.bounded in ground arith;
    honest = λ e. h;
  }

  pub extended-IsSound :
      (t : Option ℕ) (r : OutboundEmail)
      → IsSound accepted retried r
      → IsSound accepted retried (record r { lease_expires_at = t })
  extended-IsSound t r s = record { counted = s.counted; bounded = s.bounded; honest = s.honest }

-- What a change of the rows keeps; `freed` are the attempts whose rows it may queue again.
pub record Keeps (accepted retried : List ℕ) (freed : ℕ → ℕ) (before after : List OutboundEmail)
    : Type 0 where
  pub slots :
      (id : ℕ) → count_where (waits_for id) after ≤ count_where (waits_for id) before + freed id
  pub unique : UniqueIds before → UniqueIds after
  pub sound : AllSound accepted retried before → AllSound accepted retried after

abbrev pub none_freed : ℕ → ℕ
none_freed id = 0

module _ {accepted retried : List ℕ} where
  pub same-Keeps : (rs : List OutboundEmail) → Keeps accepted retried none_freed rs rs
  same-Keeps rs = record { slots = λ id. omega arith; unique = λ u. u; sound = λ s. s }

  pub then-Keeps :
      {rs ss ts : List OutboundEmail}
      → Keeps accepted retried none_freed rs ss
      → Keeps accepted retried none_freed ss ts
      → Keeps accepted retried none_freed rs ts
  then-Keeps h k = record {
    slots = λ id. omega (arith, h.slots id, k.slots id);
    unique = λ u. k.unique (h.unique u);
    sound = λ s. k.sound (h.sound s);
  }

  -- An update that leaves none of its rows waiting.
  pub quiet-Keeps :
      (p : OutboundEmail → Bool) (f : OutboundEmail → OutboundEmail) (rs : List OutboundEmail)
      → ((r : OutboundEmail) → (f r).id ≡ r.id)
      → ((r : OutboundEmail) → p r ≡ true → waits (f r) ≡ false)
      → ((r : OutboundEmail)
          → p r ≡ true
          → IsSound accepted retried r
          → IsSound accepted retried (f r))
      → Keeps accepted retried none_freed rs (update_where p f rs)
  quiet-Keeps p f rs same quiet sound = record {
    slots = λ id. omega (
      arith,
      count_where-update_where_le (waits_for id) p f rs λ r t w. let h = quiet r t in ground arith,
    );
    unique = λ u id. omega (
      arith,
      u id,
      count_where-update_where_same (has_id id) p f rs (λ r t. let h = same r in rw h refl),
    );
    sound = λ a. All-update_where (IsSound accepted retried) p f rs sound a;
  }
