-- ===== src/Sla/Worked.antt =====
-- Working time measured independently of the walk, and what one day's walk consumes of it.
use kayaka_style_hd.Prelude.{
  ℕ, ◌+◌, ◌-◌, ◌*◌, ◌/◌, ◌%◌, ◌≤◌, ◌<◌, min, max, ◌≡◌, refl, inl, inr, List, [], ◌∷◌, arith, ltb,
  leb, Bool-cases,
}
use kayaka_style_hd.Sla.WorkTime.{Slot, day_ms, minute_ms, Scan, done, left, window_start, scan}

-- The milliseconds of a slot of the day that begins at `mid` between two times.
abbrev pub overlap : ℕ → ℕ → ℕ → Slot → ℕ
overlap mid lo hi s = min hi (mid + s.end_min * minute_ms) - max lo (mid + s.start_min * minute_ms)

unfoldable pub worked : ℕ → ℕ → ℕ → List Slot → ℕ
worked mid lo hi [] = 0
worked mid lo hi (s ∷ ss) = overlap mid lo hi s + worked mid lo hi ss

-- The slots stand in order, do not overlap, and end with the day.
abbrev pub InOrder : ℕ → List Slot → Type 0
InOrder b [] = Unit
InOrder b (s ∷ ss) =
    (b ≤ s.start_min) × (s.start_min ≤ s.end_min) × (s.end_min ≤ 1440) × InOrder s.end_min ss

-- No slot is worked before it starts.
pub worked_before :
    (mid lo hi b : ℕ) (ss : List Slot)
    → InOrder b ss
    → hi ≤ mid + b * minute_ms
    → worked mid lo hi ss ≡ 0
unfolding worked
worked_before mid lo hi b [] o h = refl
worked_before mid lo hi b (s ∷ ss) (p, q, r, o) h =
    omega (arith, worked_before mid lo hi s.end_min ss o (omega arith))

-- What a scan of the day establishes, for slots from minute `b` on.
abbrev pub Scanned : ℕ → ℕ → ℕ → List Slot → ℕ → Scan → Type 0
Scanned mid lo b ss remaining (done t) =
    (worked mid lo t ss ≡ remaining * 1000)
    × (lo ≤ t)
    × (mid + b * minute_ms ≤ t)
    × (t ≤ mid + day_ms)
    × (remaining * 1000 ≤ worked mid lo (mid + day_ms) ss)
Scanned mid lo b ss remaining (left r) =
    (0 < r) × (worked mid lo (mid + day_ms) ss + r * 1000 ≡ remaining * 1000)

-- A slot that ends before the window is passed over.
Scanned-skip :
    (mid lo b : ℕ) (s : Slot) (ss : List Slot) (remaining : ℕ) (r : Scan)
    → InOrder b (s ∷ ss)
    → mid + s.end_min * minute_ms ≤ max lo (mid + s.start_min * minute_ms)
    → Scanned mid lo s.end_min ss remaining r
    → Scanned mid lo b (s ∷ ss) remaining r
unfolding worked
Scanned-skip mid lo b s ss remaining (done t) (p, q, e, o) h (w, l, m, u, c) =
    (omega arith, omega arith, omega arith, omega arith, omega arith)
Scanned-skip mid lo b s ss remaining (left r) (p, q, e, o) h (pos, w) = (omega arith, omega arith)

-- A slot that is used up.
Scanned-use :
    (mid lo b : ℕ) (s : Slot) (ss : List Slot) (remaining avail : ℕ) (r : Scan)
    → InOrder b (s ∷ ss)
    → max lo (mid + s.start_min * minute_ms) + avail * 1000 ≡ mid + s.end_min * minute_ms
    → avail < remaining
    → Scanned mid lo s.end_min ss (remaining - avail) r
    → Scanned mid lo b (s ∷ ss) remaining r
unfolding worked
Scanned-use mid lo b s ss remaining avail (done t) (p, q, e, o) h a (w, l, m, u, c) =
    (omega arith, omega arith, omega arith, omega arith, omega arith)
Scanned-use mid lo b s ss remaining avail (left r) (p, q, e, o) h a (pos, w) =
    (omega arith, omega arith)

-- The slot in which the time runs out.
Scanned-finish :
    (mid lo b : ℕ) (s : Slot) (ss : List Slot) (remaining avail : ℕ)
    → InOrder b (s ∷ ss)
    → 0 < remaining
    → max lo (mid + s.start_min * minute_ms) + avail * 1000 ≡ mid + s.end_min * minute_ms
    → remaining ≤ avail
    → Scanned mid lo b
        (s ∷ ss)
        remaining
        (done (max lo (mid + s.start_min * minute_ms) + remaining * 1000))
unfolding worked
Scanned-finish mid lo b s ss remaining avail (p, q, e, o) pos h a =
    let t = max lo (mid + s.start_min * minute_ms) + remaining * 1000 in
    (
      omega (arith, worked_before mid lo t s.end_min ss o (omega arith)),
      omega arith,
      omega arith,
      omega arith,
      omega arith,
    )

window_start-eq-max : (lo s : ℕ) → window_start lo s ≡ max lo s
window_start-eq-max lo s = ground arith

exact_seconds :
    (from slot_end : ℕ)
    → from % 1000 ≡ 0
    → slot_end % 1000 ≡ 0
    → from < slot_end
    → from + (slot_end - from) / 1000 * 1000 ≡ slot_end
exact_seconds from slot_end h k l = omega arith

window_start_whole :
    (lo mid n : ℕ)
    → lo % 1000 ≡ 0
    → mid % 1000 ≡ 0
    → window_start lo (mid + n * minute_ms) % 1000 ≡ 0
window_start_whole lo mid n h k = elim (Bool-cases (ltb (mid + n * minute_ms) lo)) [
  | inl e ↦ rw e h
  | inr e ↦ rw e (omega arith)
]

pub scan-Scanned :
    (mid lo b : ℕ) (ss : List Slot) (remaining : ℕ)
    → mid % 1000 ≡ 0
    → lo % 1000 ≡ 0
    → 0 < remaining
    → InOrder b ss
    → Scanned mid lo b ss remaining (scan mid lo ss remaining)
unfolding scan
scan-Scanned mid lo b [] remaining m l pos o = unfold worked in (pos, omega arith)
scan-Scanned mid lo b (s ∷ ss) remaining m l pos o =
    let slot_start = mid + s.start_min * minute_ms in
    let slot_end = mid + s.end_min * minute_ms in
    let from = window_start lo slot_start in
    let avail = (slot_end - from) / 1000 in
    let bound = window_start-eq-max lo slot_start in
    elim (Bool-cases (leb s.end_min s.start_min)) [
      | inl e ↦ rw e (
          Scanned-skip mid lo b s ss remaining _ o (ground arith)
            (scan-Scanned mid lo s.end_min ss remaining m l pos o.3))
      | inr e ↦ elim (Bool-cases (leb slot_end from)) [
        | inl f ↦
            rw (e, f)
              (Scanned-skip mid lo b s ss remaining _ o (ground arith)
                (scan-Scanned mid lo s.end_min ss remaining m l pos o.3))
        | inr f ↦
            let exact : max lo slot_start + avail * 1000 ≡ slot_end = rw (← bound) (
              exact_seconds from slot_end (window_start_whole lo mid s.start_min l m) (omega arith)
                (ground arith)) in
            elim (Bool-cases (leb remaining avail)) [
              | inl g ↦
                  rw (e, f, g, bound)
                    (Scanned-finish mid lo b s ss remaining avail o pos exact (ground arith))
              | inr g ↦
                  rw (e, f, g)
                    (Scanned-use mid lo b s ss remaining avail _ o exact (ground arith)
                      (scan-Scanned mid lo s.end_min ss (remaining - avail) m l (ground arith) o.3))
            ]
      ]
    ]

pub worked_after :
    (mid lo hi b : ℕ) (ss : List Slot)
    → InOrder b ss
    → mid + day_ms ≤ hi
    → worked mid lo hi ss ≡ worked mid lo (mid + day_ms) ss
unfolding worked
worked_after mid lo hi b [] o h = refl
worked_after mid lo hi b (s ∷ ss) (p, q, e, o) h =
    omega (arith, worked_after mid lo hi s.end_min ss o h)

pub worked_from :
    (mid lo hi : ℕ) (ss : List Slot) → lo ≤ mid → worked mid lo hi ss ≡ worked mid 0 hi ss
unfolding worked
worked_from mid lo hi [] h = refl
worked_from mid lo hi (s ∷ ss) h = omega (arith, worked_from mid lo hi ss h)
