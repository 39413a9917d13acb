-- ===== src/Uptime/Parts.antt =====
-- The parts of an uptime are a mixed-radix numeral: they add up, are in range, and are the only ones.
use zsr.Prelude.{ℕ, ◌+◌, ◌*◌, ◌%◌, ◌<◌, ◌≡◌, arith}
use zsr.Uptime.{Uptime, set_uptime, minute_sec, hour_sec, day_sec, month_sec, year_sec}

-- The seconds that the parts stand for.
abbrev pub seconds : Uptime → ℕ
seconds up =
    up.year * year_sec
    + up.month * month_sec
    + up.day * day_sec
    + up.hour * hour_sec
    + up.minute * minute_sec

-- A year of 365 days is twelve months of 30 days and five days more.
pub record InRange (up : Uptime) : Type 0 where
  pub in_hour : up.minute < 60
  pub in_day : up.hour < 24
  pub in_month : up.day < 30
  pub in_year : up.month * 30 + up.day < 365

-- The parts are in range, and with the seconds left over, less than a minute, they add up to the
-- total.
set_uptime-parts :
    (n : ℕ)
    → InRange (set_uptime n)
      × (seconds (set_uptime n) + n % 60 ≡ n)
      × ((set_uptime n).total_sec ≡ n)
unfolding set_uptime
set_uptime-parts n = (
  record {
    in_hour = omega arith;
    in_day = omega arith;
    in_month = omega arith;
    in_year = omega arith;
  },
  omega arith,
  omega arith,
)

-- Any parts in range and any seconds below a minute are those that `set_uptime` finds for their sum.
pub set_uptime_unique :
    (up : Uptime) (s : ℕ)
    → InRange up
    → s < 60
    → up.total_sec ≡ seconds up + s
    → set_uptime (seconds up + s) ≡ up
unfolding set_uptime
set_uptime_unique up s r h e = λ i. record {
  total_sec = total i;
  year = year i;
  month = month i;
  day = day i;
  hour = hour i;
  minute = minute i;
}
  where
    total : (set_uptime (seconds up + s)).total_sec ≡ up.total_sec
    total = omega arith

    year : (set_uptime (seconds up + s)).year ≡ up.year
    year = omega arith

    month : (set_uptime (seconds up + s)).month ≡ up.month
    month = omega arith

    day : (set_uptime (seconds up + s)).day ≡ up.day
    day = omega arith

    hour : (set_uptime (seconds up + s)).hour ≡ up.hour
    hour = omega arith

    minute : (set_uptime (seconds up + s)).minute ≡ up.minute
    minute = omega arith
