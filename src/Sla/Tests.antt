-- ===== src/Sla/Tests.antt =====
-- The SLA theorems at a schedule and a breach.
use kayaka_style_hd.Prelude.{
  ◌+◌, ◌*◌, ◌≤◌, ◌<◌, ◌≡◌, refl, ◌⊎◌, true, false, none, some, [], ◌∷◌, arith, ◌==◌, length, All,
  count_where,
}
use kayaka_style_hd.Tickets.Store.{Ticket}
use kayaka_style_hd.Sla.WorkTime.{Schedule, day_ms, midnight, add_working_seconds}
use kayaka_style_hd.Sla.Deadline.{IsWellFormed, worked_days, add_working_seconds_exact}
use kayaka_style_hd.Sla.Store.{first_response, EscalationAction, SlaDb, notify}
use kayaka_style_hd.Sla.Breach.{process_breach, Tick, run_periodic_check}
use kayaka_style_hd.Sla.Late.{IsSilent, process_breach-IsSilent}
use kayaka_style_hd.Sla.Claims.{
  IsAddressed, event_of, process_breach-IsAddressed, process_breach_again,
}

-- Every day from 9:00 to 17:00.
abbrev office : Schedule
office = record {
  work_hours = λ w. record { start_min = 540; end_min = 1020 } ∷ [];
  holidays = 1 ∷ [];
}

office-IsWellFormed : IsWellFormed office
office-IsWellFormed w = (omega arith, omega arith, omega arith, tt)

-- Nine working hours from the first midnight end after the holiday.
two_days : add_working_seconds 0 32_400 office ≡ 2 * day_ms + 36_000_000
unfolding add_working_seconds
two_days = refl

add_working_seconds_exact_example :
    ((32_400 * 1000 ≤ worked_days 60 office 0 (midnight 0 + 60 * day_ms) 0)
      × (worked_days 60 office 0 (add_working_seconds 0 32_400 office) 0 ≡ 32_400 * 1000)
      × (0 ≤ add_working_seconds 0 32_400 office))
    ⊎ ((worked_days 60 office 0 (midnight 0 + 60 * day_ms) 0 < 32_400 * 1000)
        × (add_working_seconds 0 32_400 office ≡ midnight 0 + 60 * day_ms))
add_working_seconds_exact_example =
    add_working_seconds_exact office office-IsWellFormed 0 32_400 refl (omega arith)

abbrev late_ticket : Ticket
late_ticket = record {
  id = 5;
  department_id = 2;
  status_id = 1;
  priority_id = 1;
  type_id = none;
  owner_staff_id = some 8;
  sla_plan_id = some 3;
  is_resolved = false;
  resolved_at = none;
  reopened_at = none;
  was_reopened = false;
  due_at = some 1000;
  resolution_due_at = none;
  first_response_at = none;
  is_escalated = false;
  escalation_level = 0;
  merged_into_id = none;
  total_replies = 0;
  last_activity_at = 0;
}

abbrev tell_owner : EscalationAction
tell_owner = record { action_type = notify; staff_id = none; priority_id = none; note = none }

abbrev breached : SlaDb
breached = record {
  tickets = late_ticket ∷ [];
  rules =
      record {
        id = 6;
        sla_plan_id = 3;
        target_type = first_response;
        threshold_seconds = 60;
        is_enabled = true;
        actions = tell_owner ∷ [];
      }
      ∷ [];
  staff =
      record { id = 8; email = some 80; is_enabled = true; is_admin = false; departments = 2 ∷ [] }
      ∷ [];
  events = [];
  commands = [];
  notes = [];
}

abbrev tick : Tick
tick = record { renders = true; now = 121_000; later = 121_001 }

abbrev claimed : SlaDb
claimed = process_breach true 121_000 121_001 breached 5 first_response 2

-- The owner is told, and the ticket escalated, at the first check.
owner_told :
    (length claimed.commands ≡ 1) × (count_where (λ t. t.escalation_level == 1) claimed.tickets ≡ 1)
unfolding process_breach count_where
owner_told = (refl, refl)

check_claims :
    (run_periodic_check (λ i. tick) 121_000 breached).events ≡ event_of 5 first_response ∷ []
unfolding run_periodic_check
check_claims = refl

process_breach-IsAddressed_example : All (IsAddressed breached) claimed.commands
process_breach-IsAddressed_example =
    process_breach-IsAddressed true 121_000 121_001 breached 5 first_response 2 tt

process_breach_again_example :
    process_breach true 181_000 181_001
      (record breached { events = event_of 5 first_response ∷ [] })
      5
      first_response
      3
    ≡ record breached { events = event_of 5 first_response ∷ [] }
unfolding count_where
process_breach_again_example =
    process_breach_again true 181_000 181_001
      (record breached { events = event_of 5 first_response ∷ [] }) 5 first_response 3 (omega arith)

-- Found in its first minute, the breach is claimed, and its rule of 60 seconds is not run.
claimed_silently :
    (process_breach true 30_000 30_001 breached 5 first_response 0).events
    ≡ event_of 5 first_response ∷ []
unfolding process_breach
claimed_silently = refl

process_breach-IsSilent_example :
    IsSilent breached (process_breach true 30_000 30_001 breached 5 first_response 0)
process_breach-IsSilent_example =
    process_breach-IsSilent true 30_000 30_001 breached 5 first_response 0 (omega arith, tt)
