-- ===== src/Sla/WorkTime.antt =====
-- apps/api/src/modules/sla/sla.service.ts: `addWorkingSeconds` and `computeDueDates`.
-- A Date is its number of milliseconds since the epoch. A slot has the minutes that `parseMinutes`
-- reads from its two texts; the times are those of the years 1970 to 9999.
use kayaka_style_hd.Prelude.{
  ℕ, zero, suc, ◌+◌, ◌-◌, ◌*◌, ◌/◌, ◌%◌, Bool, Option, none, some, List, [], ◌∷◌, ltb, leb, ◌==◌,
  if◌then◌else◌, elem,
}

pub record Slot : Type 0 where
  pub start_min : ℕ
  pub end_min : ℕ

-- `workHours` by weekday (0 is Sunday), and the days of the holidays.
pub record Schedule : Type 0 where
  pub work_hours : ℕ → List Slot
  pub holidays : List ℕ

abbrev pub day_ms : ℕ
day_ms = 86_400_000

abbrev pub minute_ms : ℕ
minute_ms = 60_000

-- `setUTCHours(0, 0, 0, 0)`
abbrev pub midnight : ℕ → ℕ
midnight t = t / day_ms * day_ms

-- `getUTCDay`: the epoch was a Thursday.
abbrev pub weekday : ℕ → ℕ
weekday t = (t / day_ms + 4) % 7

-- The slots of the day of a time: none on a holiday.
unfoldable pub slots_on : Schedule → ℕ → List Slot
slots_on s t = if elem (t / day_ms) s.holidays then [] else s.work_hours (weekday t)

pub data Scan : Type 0 where
  done : ℕ → Scan
  left : ℕ → Scan

abbrev pub window_start : ℕ → ℕ → ℕ
window_start lo slot_start = if ltb slot_start lo then lo else slot_start

-- The inner loop, over the slots of the day that begins at `mid`. `lo` is `start` on the first day
-- and 0 on the others, where it changes nothing.
unfoldable pub scan : ℕ → ℕ → List Slot → ℕ → Scan
scan mid lo [] remaining = left remaining
scan mid lo (s ∷ ss) remaining =
    let slot_start = mid + s.start_min * minute_ms in
    let slot_end = mid + s.end_min * minute_ms in
    let from = window_start lo slot_start in
    let avail_sec = (slot_end - from) / 1000 in
    let skip = scan mid lo ss remaining in
    let next = scan mid lo ss (remaining - avail_sec) in
    if leb s.end_min s.start_min
    then skip
    else if leb slot_end from
    then skip
    else if leb remaining avail_sec
    then done (from + remaining * 1000)
    else next

-- The outer loop, with the days left of its 60 as its fuel: the count is part of the code.
unfoldable pub walk : ℕ → Schedule → ℕ → ℕ → ℕ → ℕ
walk zero s lo day remaining = day
walk (suc k) s lo day remaining =
    if remaining == 0 then day else elim (scan (midnight day) lo (slots_on s day) remaining) [
      | done t ↦ t
      | left r ↦ walk k s 0 (midnight day + day_ms) r
    ]

unfoldable pub add_working_seconds : ℕ → ℕ → Schedule → ℕ
unfolding walk scan slots_on
add_working_seconds start seconds s = walk 60 s start start seconds

pub record Plan : Type 0 where
  pub is_enabled : Bool
  pub first_response_seconds : Option ℕ
  pub resolution_seconds : Option ℕ
  pub schedule : Option Schedule

pub record DueDates : Type 0 where
  pub due_at : Option ℕ
  pub resolution_due_at : Option ℕ

-- A target of no seconds, or of 0, sets no date.
abbrev pub due_by : (ℕ → ℕ) → Option ℕ → Option ℕ
due_by f none = none
due_by f (some seconds) = if seconds == 0 then none else some (f seconds)

abbrev pub due_dates : (ℕ → ℕ) → Plan → DueDates
due_dates f p = record {
  due_at = due_by f p.first_response_seconds;
  resolution_due_at = due_by f p.resolution_seconds;
}

abbrev pub clock_of : ℕ → Option Schedule → ℕ → ℕ
clock_of now none seconds = now + seconds * 1000
clock_of now (some s) seconds = add_working_seconds now seconds s

-- `none` where the plan is not found.
unfoldable pub compute_due_dates : Option Plan → ℕ → DueDates
unfolding add_working_seconds
compute_due_dates none now = record { due_at = none; resolution_due_at = none }
compute_due_dates (some p) now =
    if p.is_enabled
    then due_dates (clock_of now p.schedule) p
    else record { due_at = none; resolution_due_at = none }
