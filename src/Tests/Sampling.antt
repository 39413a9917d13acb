-- ===== src/Tests/Sampling.antt =====
-- Two samples compared: processors and processes.
use zsr.Prelude.{
  List, ℕ, ◌+◌, ◌≤◌, ◌<◌, ◌≡◌, ◌↔◌, refl, none, some, [], ◌∷◌, ◌++◌, codes, map, arith,
}
use zsr.Libc.Lines.{newline}
use zsr.Libc.Print.{print_lu}
use zsr.Double.{Expr, lit, symbolic}
use zsr.Cpu.{zero_cpu_stat, CpuStat, Cpu, compute_cpu_stat, read_cpu_stat}
use zsr.Cpu.Share.{
  with_shares as cpu_with_shares, idle_ticks, wait_ticks, all_ticks, compute_cpu_stat-shares,
}
use zsr.Cpu.Reading.{CpuTimes, cpu_line}
use zsr.Modules.History.{collect_cpu, zero_cpu}
use zsr.Modules.History.Growth.{collect_cpu_all, collect_cpu_all-stats, collect_cpu-shares}
use zsr.Proc.{Proc, sample, has_pid, compute_proc_cpu_stat}
use zsr.Proc.Bounds.{Overrun, compute_proc_cpu_stat-none_iff}
use zsr.Proc.Aligned.{with_shares, compute_proc_cpu_stat-aligned, compute_proc_cpu_stat-positions}

abbrev early : CpuStat
early = record {
  user = 4705;
  nice = 150;
  sys = 1120;
  idle = 16250;
  iowait = 520;
  steal = 30;
  hardirq = 0;
  softirq = 17;
  guest = 5;
  number = 0;
}

abbrev late : CpuStat
late = record early { user = 4720; idle = 16430; iowait = 523; steal = 32 }

compute_cpu_stat-shares_example :
    (compute_cpu_stat symbolic (some (zero_cpu symbolic late)) (some (zero_cpu symbolic early))
      ≡ some (cpu_with_shares symbolic early late))
    × (idle_ticks early late + wait_ticks early late ≤ all_ticks early late)
    × (0 < all_ticks early late)
compute_cpu_stat-shares_example =
    compute_cpu_stat-shares symbolic (zero_cpu symbolic late) (zero_cpu symbolic early)
      (omega arith) (omega arith) (omega arith)

-- The line whose columns are stored as these counters.
abbrev pub times_of : CpuStat → CpuTimes
times_of c = record {
  user = c.user;
  nice = c.nice;
  system = c.sys;
  idle = c.idle;
  iowait = c.iowait;
  irq = c.steal;
  softirq = c.hardirq;
  steal = c.softirq;
  guest = c.guest;
  guest_nice = c.number;
}

collect_cpu-shares_example :
    (collect_cpu symbolic
      (some (cpu_line (times_of late) ++ newline ∷ codes "cpu0 1\n"))
      ([] ++ zero_cpu symbolic early ∷ [])).0
    ≡ ([] ++ zero_cpu symbolic early ∷ []) ++ cpu_with_shares symbolic early late ∷ []
unfolding print_lu
collect_cpu-shares_example =
    collect_cpu-shares symbolic (times_of late) (codes "cpu0 1\n") [] (zero_cpu symbolic early)
      (omega arith) (omega arith) (omega arith) (omega arith) (omega arith)

collect_cpu_all-stats_example :
    (new : List (Cpu Expr)) × (collect_cpu_all symbolic (some (codes "cpu 1 2 3\n") ∷ none ∷ []) []
      ≡ [] ++ new)
    × (map (λ (c : Cpu Expr). c.stat) new
        ≡ map
            (λ text. (read_cpu_stat text zero_cpu_stat).0)
            (some (codes "cpu 1 2 3\n") ∷ none ∷ []))
collect_cpu_all-stats_example =
    collect_cpu_all-stats symbolic (some (codes "cpu 1 2 3\n") ∷ none ∷ []) []

abbrev process : ℕ → ℕ → ℕ → Proc Expr
process pid cpu_time sys_cpu_time = record {
  pid = pid;
  state = b'S';
  ppid = 1;
  user = codes "root";
  group = codes "root";
  virt_mem_kb = 4096;
  res_mem_kb = 512;
  mem_util = lit 0;
  start_time = 7;
  sys_cpu_time = sys_cpu_time;
  cpu_time = cpu_time;
  cpu_util = lit 0;
  cmd = codes "sh";
  cmd_path = codes "/bin/sh";
}

compute_proc_cpu_stat-aligned_example :
    compute_proc_cpu_stat symbolic
      ((process 1 30 900 ∷ process 2 12 900 ∷ []) ++ process 9 1 900 ∷ [])
      ((process 1 20 800 ∷ process 2 10 800 ∷ []) ++ process 5 3 800 ∷ [])
    ≡ some (
        with_shares symbolic
          (process 1 30 900 ∷ process 2 12 900 ∷ [])
          (process 1 20 800 ∷ process 2 10 800 ∷ [])
        ++ process 9 1 900 ∷ [])
unfolding has_pid
compute_proc_cpu_stat-aligned_example =
    compute_proc_cpu_stat-aligned symbolic (process 1 30 900 ∷ process 2 12 900 ∷ [])
      (process 1 20 800 ∷ process 2 10 800 ∷ []) (process 9 1 900 ∷ []) (process 5 3 800 ∷ [])
      (omega arith) (refl, tt) (omega arith) (omega arith)

-- The process with pid 5 has ended, and the other two have moved up.
compute_proc_cpu_stat-positions_example :
    compute_proc_cpu_stat symbolic
      ((process 7 12 900 ∷ process 8 3 900 ∷ []) ++ [])
      ((process 5 400 800 ∷ process 7 10 800 ∷ []) ++ process 8 2 800 ∷ [])
    ≡ some (
        with_shares symbolic
          (process 7 12 900 ∷ process 8 3 900 ∷ [])
          (process 5 400 800 ∷ process 7 10 800 ∷ [])
        ++ [])
unfolding has_pid
compute_proc_cpu_stat-positions_example =
    compute_proc_cpu_stat-positions symbolic (process 7 12 900 ∷ process 8 3 900 ∷ [])
      (process 5 400 800 ∷ process 7 10 800 ∷ []) [] (process 8 2 800 ∷ []) tt (refl, (refl, tt)) tt
      (omega arith) (omega arith, (omega arith, tt))

-- A new process in front moves the others behind the end of the earlier list.
compute_proc_cpu_stat-none_iff_example :
    (compute_proc_cpu_stat symbolic
        (process 3 1 900 ∷ process 7 12 900 ∷ [])
        (process 7 10 800 ∷ [])
      ≡ none)
    ↔ Overrun 0
        (map sample (process 3 1 900 ∷ process 7 12 900 ∷ []))
        (map sample (process 7 10 800 ∷ []))
compute_proc_cpu_stat-none_iff_example =
    compute_proc_cpu_stat-none_iff symbolic (process 3 1 900 ∷ process 7 12 900 ∷ [])
      (process 7 10 800 ∷ [])
