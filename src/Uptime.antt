-- ===== src/Uptime.antt =====
-- libzsr/uptime.c: the time since boot, split into calendar-like parts, and its reading from
-- /proc/uptime. A file that cannot be opened is `none`.
pub mod Parts
pub mod Reading
use zsr.Prelude.{ℕ, ◌/◌, ◌%◌, Option, none, some, List, [], ◌∷◌, Bytes}
use zsr.Libc.Scan.{scan_lu_or}
use zsr.Log.{LogCall, log_error_of}

-- `uptime_t`, without the list links.
pub record Uptime : Type 0 where
  pub total_sec : ℕ
  pub year : ℕ
  pub month : ℕ
  pub day : ℕ
  pub hour : ℕ
  pub minute : ℕ

abbrev pub minute_sec : ℕ
minute_sec = 60

abbrev pub hour_sec : ℕ
hour_sec = 3600

abbrev pub day_sec : ℕ
day_sec = 86400

abbrev pub month_sec : ℕ
month_sec = 2592000

abbrev pub year_sec : ℕ
year_sec = 31536000

unfoldable pub set_uptime : ℕ → Uptime
set_uptime total_sec =
    let in_year = total_sec % year_sec in
    let in_month = in_year % month_sec in
    let in_day = in_month % day_sec in
    let in_hour = in_day % hour_sec in
    record {
      total_sec = total_sec;
      year = total_sec / year_sec;
      month = in_year / month_sec;
      day = in_month / day_sec;
      hour = in_day / hour_sec;
      minute = in_hour / minute_sec;
    }

-- The record afterwards, and the calls of the log.
unfoldable pub read_uptime_stat : Option Bytes → Uptime → Uptime × List LogCall
unfolding set_uptime
read_uptime_stat none up = (up, log_error_of "/proc/uptime" ∷ [])
read_uptime_stat (some text) up = (set_uptime (scan_lu_or 0 text), [])
