-- ===== src/Io/Clock.antt =====
-- libzsr/io.c: the two clocks of a sample, get_cpu_time_in_jiffies and read_uptime_in_jiffies. `HZ` is
-- an argument; a file that cannot be opened is `none`.
use zsr.Prelude.{
  ℕ, ◌+◌, ◌*◌, ◌/◌, ◌%◌, ◌≤◌, ◌<◌, ◌≡◌, refl, Option, none, some, List, [], ◌∷◌, ◌++◌, append_assoc,
  Bytes, length, codes, ◌==◌, if◌then◌else◌, u64_mod, max_u64, All, All-append, arith,
}
use zsr.Libc.Lines.{lines, lines-line, newline, NoNewline}
use zsr.Libc.Scan.{scan_lu}
use zsr.Libc.Print.{print_lu}
use zsr.Libc.Print.RoundTrip.{Stops, scan_lu-print_lu, two_digits, scan_lu-two_digits}
use zsr.Libc.Print.Fields.{print_lu-NoNewline}
use zsr.Log.{LogCall}
use zsr.Cpu.{zero_cpu_stat, read_cpu_stat, sum_cpu_stat}
use zsr.Cpu.Sum.{ticks, sum_cpu_stat-ticks}
use zsr.Cpu.Reading.{CpuTimes, times, stored, cpu_line, read_cpu_stat-line}

-- The time, and the calls of the log.
unfoldable pub get_cpu_time_in_jiffies : Option Bytes → ℕ × List LogCall
get_cpu_time_in_jiffies text =
    let (stat, logs) = read_cpu_stat text zero_cpu_stat in (sum_cpu_stat stat, logs)

unfoldable pub jiffies : ℕ → ℕ → ℕ → ℕ
jiffies hz up_sec up_cent = (up_sec * hz % u64_mod + up_cent * hz % u64_mod / 100) % u64_mod

-- Behind the point of "%lu.%lu".
abbrev pub with_cent : ℕ → ℕ → Option (ℕ × Bytes) → Option ℕ
with_cent hz up_sec none = none
with_cent hz up_sec (some (up_cent, s)) = some (jiffies hz up_sec up_cent)

abbrev pub with_sec : ℕ → Option (ℕ × Bytes) → Option ℕ
with_sec hz none = none
with_sec hz (some (up_sec, [])) = none
with_sec hz (some (up_sec, c ∷ s)) = if c == b'.' then with_cent hz up_sec (scan_lu s) else none

-- The first buffer, if there is one.
abbrev pub first_line : ℕ → List Bytes → Option ℕ
first_line hz [] = some 0
first_line hz (line ∷ bufs) = with_sec hz (scan_lu line)

-- `none` where a variable is read that nothing was assigned to.
unfoldable pub read_uptime_in_jiffies : ℕ → Option Bytes → Option ℕ
read_uptime_in_jiffies hz none = some 0
read_uptime_in_jiffies hz (some text) = first_line hz (lines 128 text)

jiffies-exact : (hz s c : ℕ) → s * hz + c * hz < u64_mod → jiffies hz s c ≡ s * hz + c * hz / 100
unfolding jiffies
jiffies-exact hz s c fits = omega arith

-- The first line of /proc/uptime.
abbrev pub clock_line : ℕ → ℕ → Bytes → Bytes
clock_line up_sec up_cent rest = print_lu up_sec ++ (codes "." ++ (two_digits up_cent ++ rest))

clock_line-NoNewline :
    (up_sec up_cent : ℕ) (rest : Bytes)
    → NoNewline rest
    → NoNewline (clock_line up_sec up_cent rest)
clock_line-NoNewline up_sec up_cent rest clean =
    All-append _ (print_lu up_sec) (codes "." ++ (two_digits up_cent ++ rest))
      (print_lu-NoNewline up_sec)
      (omega arith, All-append _ (two_digits up_cent) rest (omega arith, (omega arith, tt)) clean)

scan-clock_line :
    (hz up_sec up_cent : ℕ) (rest : Bytes)
    → up_sec ≤ max_u64
    → up_cent < 100
    → Stops (rest ++ newline ∷ [])
    → with_sec hz (scan_lu (clock_line up_sec up_cent rest ++ newline ∷ []))
      ≡ some (jiffies hz up_sec up_cent)
scan-clock_line hz up_sec up_cent rest fs fc stops =
    rw
      (
        append_assoc (print_lu up_sec) (codes "." ++ (two_digits up_cent ++ rest)) (newline ∷ []),
        scan_lu-print_lu up_sec (b'.' ∷ (two_digits up_cent ++ (rest ++ newline ∷ []))) fs refl,
        scan_lu-two_digits up_cent (rest ++ newline ∷ []) fc stops,
      )
      refl

-- From a first line "<seconds>.<hundredths>…" that fits into the buffer, the time since boot is the
-- sum of both parts in jiffies, rounded down, if it fits into 64 bits.
pub read_uptime_in_jiffies-line :
    (hz up_sec up_cent : ℕ) (rest more : Bytes)
    → up_sec ≤ max_u64
    → up_cent < 100
    → up_sec * hz + up_cent * hz < u64_mod
    → NoNewline rest
    → Stops (rest ++ newline ∷ [])
    → length (clock_line up_sec up_cent rest) ≤ 126
    → read_uptime_in_jiffies hz (some (clock_line up_sec up_cent rest ++ newline ∷ more))
      ≡ some (up_sec * hz + up_cent * hz / 100)
unfolding read_uptime_in_jiffies
read_uptime_in_jiffies-line hz up_sec up_cent rest more fs fc fits clean stops short =
    rw
      (
        lines-line 126 (clock_line up_sec up_cent rest) more
            (clock_line-NoNewline up_sec up_cent rest clean) short,
        scan-clock_line hz up_sec up_cent rest fs fc stops,
        jiffies-exact hz up_sec up_cent fits,
      )
      refl

-- From a first line of /proc/stat that fits into the buffer, whose counters fit into 64 bits together,
-- the time is the sum of the disjoint counters, and nothing is logged.
pub get_cpu_time_in_jiffies-line :
    (c : CpuTimes) (rest : Bytes)
    → All (λ n. n ≤ max_u64) (times c)
    → ticks (stored c) < u64_mod
    → length (cpu_line c) ≤ 126
    → get_cpu_time_in_jiffies (some (cpu_line c ++ newline ∷ rest)) ≡ (ticks (stored c), [])
unfolding get_cpu_time_in_jiffies
get_cpu_time_in_jiffies-line c rest fit total short =
    rw
      (
        read_cpu_stat-line c zero_cpu_stat rest fit short,
        sum_cpu_stat-ticks (stored c) c.guest c.guest_nice total,
      )
      refl
