-- ===== src/Tests/Reading.antt =====
-- The readers, `is_digit` and the parts of an uptime.
use zsr.Prelude.{
  ◌*◌, ◌/◌, ◌+◌, ◌+◌, ◌-◌, ◌≡◌, ◌↔◌, refl, true, false, none, some, [], ◌∷◌, ◌++◌, Bytes, codes,
  arith, Option,
}
use zsr.Libc.Lines.{newline, join_lines}
use zsr.Libc.Text.{starts_with}
use zsr.Libc.Print.{print_lu}
use zsr.Common.{is_digit}
use zsr.Common.Numeral.{IsNumeral, is_digit_iff}
use zsr.Uptime.{Uptime, set_uptime}
use zsr.Uptime.Parts.{seconds, set_uptime_unique}
use zsr.Cpu.{CpuStat, read_cpu_stat}
use zsr.Cpu.Reading.{CpuTimes, stored, cpu_line, read_cpu_stat-line}
use zsr.Io.Clock.{read_uptime_in_jiffies, clock_line, read_uptime_in_jiffies-line}
use zsr.Meminfo.{MemStat, read_mem_stat}
use zsr.Meminfo.Reading.{mem_head, read_mem_stat-info}
use zsr.Modules.Single.{zero_uptime, zero_mem}
use zsr.Modules.Print.{uptime_to_str, mem_to_str}
use zsr.Modules.Print.Fields.{read_values, to_str-values}

-- test/common.c.
is_digit_cases :
    (is_digit none ≡ false)
    × (is_digit (some (codes "a23a")) ≡ false)
    × (is_digit (some (codes ".123")) ≡ false)
    × (is_digit (some (codes "123.")) ≡ false)
    × (is_digit (some (codes "1.23")) ≡ true)
    × (is_digit (some (codes "-1.23")) ≡ true)
    × (is_digit (some (codes "123")) ≡ true)
    × (is_digit (some (codes "-123")) ≡ true)
unfolding is_digit
is_digit_cases = (refl, refl, refl, refl, refl, refl, refl, refl)

is_digit_odd_cases :
    (is_digit (some []) ≡ true)
    × (is_digit (some (codes "-")) ≡ true)
    × (is_digit (some (codes "1.2.3")) ≡ true)
unfolding is_digit
is_digit_odd_cases = (refl, refl, refl)

is_digit_iff_example : (is_digit (some (codes "-1.2.3")) ≡ true) ↔ IsNumeral (codes "-1.2.3")
is_digit_iff_example = is_digit_iff (codes "-1.2.3")

abbrev some_uptime : Uptime
some_uptime = record { total_sec = 63075780; year = 1; month = 12; day = 4; hour = 23; minute = 3 }

abbrev late_uptime : Uptime
late_uptime = record {
  total_sec = seconds some_uptime + 17;
  year = 1;
  month = 12;
  day = 4;
  hour = 23;
  minute = 3;
}

set_uptime_unique_example : set_uptime (seconds late_uptime + 17) ≡ late_uptime
set_uptime_unique_example = set_uptime_unique late_uptime 17 (omega arith) (omega arith) refl

abbrev sample_stat : CpuStat
sample_stat = record {
  user = 4705;
  nice = 150;
  sys = 1120;
  idle = 16250;
  iowait = 520;
  steal = 30;
  hardirq = 0;
  softirq = 17;
  guest = 5;
  number = 0;
}

abbrev other_lines : Bytes
other_lines = codes "cpu0 4705 150 1120 16250 520 30 0 17 5 0\nintr 12\n"

abbrev sample_times : CpuTimes
sample_times = record {
  user = 4705;
  nice = 150;
  system = 1120;
  idle = 16250;
  iowait = 520;
  irq = 30;
  softirq = 7;
  steal = 12;
  guest = 0;
  guest_nice = 0;
}

read_cpu_stat-line_example :
    read_cpu_stat (some (cpu_line sample_times ++ newline ∷ other_lines)) sample_stat
    ≡ (stored sample_times, [])
unfolding print_lu
read_cpu_stat-line_example =
    read_cpu_stat-line sample_times sample_stat other_lines (omega arith) (omega arith)

-- A leading zero in the hundredths.
read_uptime_in_jiffies-line_example :
    read_uptime_in_jiffies 250 (some (clock_line 350735 7 (codes " 234388.90") ++ newline ∷ []))
    ≡ some (350735 * 250 + 7 * 250 / 100)
unfolding print_lu
read_uptime_in_jiffies-line_example =
    read_uptime_in_jiffies-line 250 350735 7 (codes " 234388.90") [] (omega arith) (omega arith)
      (omega arith) (omega arith) refl (omega arith)

read_mem_stat-info_example :
    read_mem_stat
      (some (
        join_lines (mem_head 1020140 7 250344 9 (codes "Buffers: 7 kB")) ++ codes "Cached: 1 kB\n"))
      zero_mem
    ≡ (record { total_kb = 1020140; used_kb = 1020140 - 250344; free_kb = 250344 }, [])
unfolding print_lu starts_with
read_mem_stat-info_example =
    read_mem_stat-info 1020140 7 250344 9 (codes "Buffers: 7 kB") (codes "Cached: 1 kB\n") zero_mem
      (omega arith) (omega arith) (omega arith) refl refl

abbrev uptime_file : Option Bytes
uptime_file = some (codes "350735.47 234388.90\n")

abbrev sample_mem : MemStat
sample_mem = record { total_kb = 1020140; used_kb = 769796; free_kb = 250344 }

to_str-values_example :
    ((line : Bytes) × (uptime_to_str (zero_uptime ∷ some_uptime ∷ [])
        ≡ some (codes "uptime=" ++ line))
      × (read_values 6 line
          ≡ some_uptime.total_sec ∷ some_uptime.year ∷ some_uptime.month ∷ some_uptime.day
            ∷ some_uptime.hour ∷ some_uptime.minute ∷ []))
    × ((line : Bytes) × (mem_to_str (sample_mem ∷ []) ≡ some (codes "mem=" ++ line))
        × (read_values 3 line ≡ sample_mem.total_kb ∷ sample_mem.used_kb ∷ sample_mem.free_kb ∷ []))
to_str-values_example =
    to_str-values (zero_uptime ∷ []) some_uptime [] sample_mem (omega arith) (omega arith)

uptime_line : uptime_to_str (some_uptime ∷ []) ≡ some (codes "uptime=63075780,1,12,4,23,3;\n")
unfolding uptime_to_str print_lu
uptime_line = refl
