-- ===== src/Domain/Schedule/Samples.antt =====
-- A calendar with one zone, that of universal time, from 1 January 1970, and a schedule, for the tests.
use tidyflow.Domain.Schedule.Runs.{IsCalendar, KeepsDate, weekly_in}
use tidyflow.Domain.Schedule.{ScheduleConfig, Chrono, local_name}
use tidyflow.Base.{ℕ, ◌*◌, ◌+◌, if◌then◌else◌, ◌≡◌, leb, some, ◌&&◌, ◌∷◌, ◌/◌, none, [], arith, ◌%◌}

abbrev pub day_ns : ℕ
day_ns = 86400000000000

abbrev pub time_ns : ℕ → ℕ → ℕ
time_ns hour minute = hour * 3600000000000 + minute * 60000000000

abbrev pub greenwich : Chrono
greenwich = record {
  NaiveDateTime = ℕ;
  Tz = Unit {0};
  and_hms_opt = λ day hour minute.
      if leb hour 23 && leb minute 59 then some (day * day_ns + time_ns hour minute) else none;
  weekday = λ day. (day + 4) % 7;
  local = tt;
  utc = tt;
  parse = λ name. none;
  date_naive = λ tz t. t / day_ns;
  latest = λ tz naive. some naive;
}

pub greenwich-IsCalendar : IsCalendar greenwich tt
greenwich-IsCalendar = record {
  date_latest = λ day hour minute naive t p q. on_day day hour minute naive t p q;
  weekday_suc = λ day. omega arith;
  hms_ok = λ day hour minute h m. (day * day_ns + time_ns hour minute, ground arith);
}
  where
    on_day :
        (day hour minute naive t : ℕ)
        → greenwich.and_hms_opt day hour minute ≡ some naive
        → greenwich.latest tt naive ≡ some t
        → t / day_ns ≡ day
    on_day day hour minute naive t p q = ground arith

-- Its dates never go back.
pub greenwich-KeepsDate : (from : ℕ) → KeepsDate greenwich tt from
greenwich-KeepsDate from t h = omega arith

-- Mondays and Fridays at 8:30; 1 January 1970 is a Thursday.
abbrev pub twice_a_week : ScheduleConfig
twice_a_week = weekly_in local_name (1 ∷ 5 ∷ []) 8 30
