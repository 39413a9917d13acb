-- ===== src/Uptime/Reading.antt =====
-- What is read from /proc/uptime, whose text is "<seconds>.<hundredths> <idle>…".
use zsr.Prelude.{ℕ, ◌≤◌, ◌≡◌, refl, some, [], ◌++◌, Bytes, max_u64}
use zsr.Libc.Print.{print_lu}
use zsr.Libc.Print.RoundTrip.{Stops, scan_lu_or-print_lu}
use zsr.Uptime.{Uptime, set_uptime, read_uptime_stat}

-- A file that begins with a number of seconds gives the parts of that number, whatever follows the
-- number and whatever the record held; nothing is logged.
pub read_uptime_stat-print :
    (n : ℕ) (rest : Bytes) (old : Uptime)
    → n ≤ max_u64
    → Stops rest
    → read_uptime_stat (some (print_lu n ++ rest)) old ≡ (set_uptime n, [])
unfolding read_uptime_stat
read_uptime_stat-print n rest old fits stops = rw (scan_lu_or-print_lu 0 n rest fits stops) refl
