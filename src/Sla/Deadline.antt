-- ===== src/Sla/Deadline.antt =====
-- `addWorkingSeconds` of apps/api/src/modules/sla/sla.service.ts against the measure of working
-- time.
use native.Mathlib.Decide.{dec_le}
use kayaka_style_hd.Prelude.{
  ℕ, zero, suc, ◌+◌, ◌*◌, ◌/◌, ◌%◌, ◌≤◌, ◌<◌, ◌≡◌, refl, sym, ap, ◌∙◌, ◌⊎◌, inl, inr, false, List,
  [], ◌∷◌, arith, ◌==◌, Bool-cases, elem,
}
use kayaka_style_hd.Sla.WorkTime.{
  Slot, Schedule, day_ms, midnight, weekday, slots_on, Scan, done, left, scan, walk,
  add_working_seconds,
}
use kayaka_style_hd.Sla.Worked.{
  worked, InOrder, Scanned, scan-Scanned, worked_before, worked_after, worked_from,
}

-- The slots of every weekday are in order and within the day.
abbrev pub IsWellFormed : Schedule → Type 0
IsWellFormed s = (w : ℕ) → InOrder 0 (s.work_hours w)

slots_on-InOrder : (s : Schedule) (t : ℕ) → IsWellFormed s → InOrder 0 (slots_on s t)
unfolding slots_on
slots_on-InOrder s t h = elim (Bool-cases (elem (t / day_ms) s.holidays)) [
  | inl e ↦ rw e tt
  | inr e ↦ rw e (h (weekday t))
]

-- The working time between two times, in a number of days from the one of `day`.
unfoldable pub worked_days : ℕ → Schedule → ℕ → ℕ → ℕ → ℕ
unfolding worked slots_on
worked_days zero s lo hi day = 0
worked_days (suc k) s lo hi day =
    worked (midnight day) lo hi (slots_on s day) + worked_days k s lo hi (midnight day + day_ms)

worked_mono :
    (mid lo hi hi' : ℕ) (ss : List Slot) → hi ≤ hi' → worked mid lo hi ss ≤ worked mid lo hi' ss
unfolding worked
worked_mono mid lo hi hi' [] h = omega arith
worked_mono mid lo hi hi' (s ∷ ss) h = omega (arith, worked_mono mid lo hi hi' ss h)

days_mono :
    (k : ℕ) (s : Schedule) (lo hi hi' day : ℕ)
    → hi ≤ hi'
    → worked_days k s lo hi day ≤ worked_days k s lo hi' day
unfolding worked_days
days_mono zero s lo hi hi' day h = omega arith
days_mono (suc k) s lo hi hi' day h = omega (
  arith,
  worked_mono (midnight day) lo hi hi' (slots_on s day) h,
  days_mono k s lo hi hi' (midnight day + day_ms) h,
)

module _ (s : Schedule) (wf : IsWellFormed s) where
  days_before : (k lo hi day : ℕ) → hi ≤ midnight day → worked_days k s lo hi day ≡ 0
  unfolding worked_days
  days_before zero lo hi day h = refl
  days_before (suc k) lo hi day h = omega (
    arith,
    worked_before (midnight day) lo hi 0 (slots_on s day) (slots_on-InOrder s day wf) (omega arith),
    days_before k lo hi (midnight day + day_ms) (omega arith),
  )

  days_from :
      (k lo hi day : ℕ) → lo ≤ midnight day → worked_days k s lo hi day ≡ worked_days k s 0 hi day
  unfolding worked_days
  days_from zero lo hi day h = refl
  days_from (suc k) lo hi day h = omega (
    arith,
    worked_from (midnight day) lo hi (slots_on s day) h,
    days_from k lo hi (midnight day + day_ms) (omega arith),
  )

  tail_cap :
      (k lo day : ℕ)
      → lo ≤ midnight day + day_ms
      → let next = midnight day + day_ms in
        worked_days k s lo (midnight day + suc k * day_ms) next
        ≡ worked_days k s 0 (midnight next + k * day_ms) next
  tail_cap k lo day h =
      let next = midnight day + day_ms in
      let same : midnight day + suc k * day_ms ≡ midnight next + k * day_ms = omega arith in
      days_from k lo _ next (omega arith) ∙ ap (λ c. worked_days k s 0 c next) same

  -- What the walk over `k` days gives: the time by which `remaining` seconds are worked, or the end
  -- of the days if they hold less.
  abbrev Walked : ℕ → ℕ → ℕ → ℕ → ℕ → Type 0
  Walked k lo day remaining t =
      let cap = midnight day + k * day_ms in
      ((remaining * 1000 ≤ worked_days k s lo cap day)
        × (worked_days k s lo t day ≡ remaining * 1000)
        × (lo ≤ t)
        × (midnight day ≤ t)
        × (t ≤ cap))
      ⊎ ((worked_days k s lo cap day < remaining * 1000) × (t ≡ cap))

  Walked-done :
      (k lo day remaining t : ℕ)
      → Scanned (midnight day) lo 0 (slots_on s day) remaining (done t)
      → Walked (suc k) lo day remaining t
  unfolding worked_days
  Walked-done k lo day remaining t (w, l, m, u, c) =
      let ss = slots_on s day in
      let mid = midnight day in
      let o = slots_on-InOrder s day wf in
      inl (
        omega (arith, worked_after mid lo (mid + suc k * day_ms) 0 ss o (omega arith)),
        omega (arith, days_before k lo t (mid + day_ms) (omega arith)),
        l,
        omega arith,
        omega arith,
      )

  Walked-left :
      (k lo day remaining r t : ℕ)
      → lo ≤ midnight day + day_ms
      → Scanned (midnight day) lo 0 (slots_on s day) remaining (left r)
      → Walked k 0 (midnight day + day_ms) r t
      → Walked (suc k) lo day remaining t
  unfolding worked_days
  Walked-left k lo day remaining r t h (pos, w) (inl (enough, exact, _, m, u)) =
      let ss = slots_on s day in
      let mid = midnight day in
      let o = slots_on-InOrder s day wf in
      let cap = mid + suc k * day_ms in
      inl (
        omega (arith, worked_after mid lo cap 0 ss o (omega arith), tail_cap k lo day h),
        omega (
          arith,
          worked_after mid lo t 0 ss o (omega arith),
          days_from k lo t (mid + day_ms) (omega arith),
        ),
        omega arith,
        omega arith,
        omega arith,
      )
  Walked-left k lo day remaining r t h (pos, w) (inr (short, capped)) =
      let ss = slots_on s day in
      let mid = midnight day in
      let o = slots_on-InOrder s day wf in
      let cap = mid + suc k * day_ms in
      inr (
        omega (arith, worked_after mid lo cap 0 ss o (omega arith), tail_cap k lo day h),
        omega arith,
      )

  walk-Walked :
      (k lo day remaining : ℕ)
      → (k ≡ 0 → midnight day ≡ day)
      → lo % 1000 ≡ 0
      → lo ≤ midnight day + day_ms
      → 0 < remaining
      → Walked k lo day remaining (walk k s lo day remaining)
  unfolding walk
  walk-Walked zero lo day remaining e l h pos =
      inr (unfold worked_days in omega arith, sym (e refl) ∙ omega arith)
  walk-Walked (suc k) lo day remaining e l h pos =
      let running : (remaining == 0) ≡ false = ground arith in
      rw running (
        go (scan (midnight day) lo (slots_on s day) remaining)
          (scan-Scanned (midnight day) lo 0 (slots_on s day) remaining (omega arith) l pos
            (slots_on-InOrder s day wf))
          (λ r p.
            walk-Walked k 0 (midnight day + day_ms) r (λ _. omega arith) refl (omega arith) p))
    where
      go :
          (res : Scan)
          → Scanned (midnight day) lo 0 (slots_on s day) remaining res
          → ((r : ℕ)
              → 0 < r
              → Walked k 0 (midnight day + day_ms) r (walk k s 0 (midnight day + day_ms) r))
          → Walked
              (suc k)
              lo
              day
              remaining
              (elim res [ done t ↦ t | left r ↦ walk k s 0 (midnight day + day_ms) r ])
      go (done t) w ih = Walked-done k lo day remaining t w
      go (left r) w ih = Walked-left k lo day remaining r _ h w (ih r w.0)

  -- For slots in order within each day and a start on a whole second: if the 60 days from the start
  -- hold the asked seconds of working time, then exactly so much working time lies between the
  -- start and the result, which does not come before the start; otherwise the result is the
  -- midnight that ends the 60th day.
  pub add_working_seconds_exact :
      (start seconds : ℕ)
      → start % 1000 ≡ 0
      → 0 < seconds
      → let t = add_working_seconds start seconds s in
        let cap = midnight start + 60 * day_ms in
        ((seconds * 1000 ≤ worked_days 60 s start cap start)
          × (worked_days 60 s start t start ≡ seconds * 1000)
          × (start ≤ t))
        ⊎ ((worked_days 60 s start cap start < seconds * 1000) × (t ≡ cap))
  unfolding add_working_seconds
  add_working_seconds_exact start seconds whole pos =
      elim (walk-Walked 60 start start seconds (λ e. absurd (omega arith)) whole (omega arith)
        pos) [
          | inl (enough, exact, later, _, _) ↦ inl (enough, exact, later)
          | inr capped ↦ inr capped
        ]

  -- A longer target is never due earlier.
  pub add_working_seconds_mono :
      (start a b : ℕ)
      → start % 1000 ≡ 0
      → 0 < a
      → a ≤ b
      → add_working_seconds start a s ≤ add_working_seconds start b s
  unfolding add_working_seconds
  add_working_seconds_mono start a b whole pos le =
      compare_walks (walk 60 s start start a) (walk 60 s start start b)
        (walk-Walked 60 start start a (λ e. absurd (omega arith)) whole (omega arith) pos)
        (walk-Walked 60 start start b (λ e. absurd (omega arith)) whole (omega arith) (omega arith))
        (λ e. ap (walk 60 s start start) e)
    where
      compare_walks :
          (t u : ℕ)
          → Walked 60 start start a t
          → Walked 60 start start b u
          → (a ≡ b → t ≡ u)
          → t ≤ u
      compare_walks t u (inl (_, exact, _, _, _)) (inl (_, exact', _, _, _)) same =
          elim (dec_le t u) [
            | yes h ↦ h
            | no h ↦
                let back = days_mono 60 s start u t start (omega arith) in
                let tied : a ≡ b = omega arith in omega (arith, same tied)
          ]
      compare_walks t u (inl (_, _, _, _, w)) (inr (_, capped)) same = omega arith
      compare_walks t u (inr (short, _)) (inl (enough, _, _, _, _)) same = absurd (omega arith)
      compare_walks t u (inr (_, capped)) (inr (_, capped')) same = omega arith
