-- ===== src/Tests/Samples.antt =====
-- A second round of mod_io.c and of mod_proc.c.
use zsr.Prelude.{ℕ, ◌≡◌, ◌≢◌, refl, none, [], ◌∷◌, ◌++◌, codes, arith, same_text, ne_of_same_text}
use zsr.Libc.Text.{starts_with}
use zsr.Libc.Lines.{lines}
use zsr.Libc.Scan.{scan_d, scan_lus}
use zsr.Libc.Print.{print_lu}
use zsr.Common.{is_digit}
use zsr.Double.{Expr, symbolic}
use zsr.Cpu.{CpuStat, read_cpu_stat, zero_cpu_stat, sum_cpu_stat}
use zsr.Cpu.Count.{is_cpu_line, count_lines, larger, get_num_of_cpu}
use zsr.Io.{Io, compute_io_stat}
use zsr.Io.Clock.{get_cpu_time_in_jiffies}
use zsr.Io.Rates.{IsLater, with_rates}
use zsr.Io.Listing.Entries.{entry_of}
use zsr.Proc.{Proc, has_pid, set_sys_cpu_time, set_pid_mem_until}
use zsr.Proc.Aligned.{with_shares}
use zsr.Proc.Stat.Line.{PidLine, IsLine}
use zsr.Proc.Listing.{is_process, zero_proc}
use zsr.Proc.Listing.Processes.{Process, IsShown, process, another, procs_of}
use zsr.Modules.Handlers.{SystemView, no_records, io_handlers, proc_handlers}
use zsr.Modules.Handlers.Samples.{with_disks, with_entries, collect_record-io, collect_record-proc}
use zsr.Tests.Listings.{io_system, sda, sda-Fits, bash_line}
use zsr.Tests.Processes.{bash, bash-IsShown, proc_dot, proc_uptime, proc_system, one_user}
use zsr.Tests.Program.{view, no_numbers}

abbrev now : SystemView
now = record (view 0) { io = io_system; proc = proc_system }

-- The same device two jiffies after the start.
abbrev sda_before : Io Expr
sda_before =
    entry_of symbolic 2 0 (record sda {
      counters = record sda.counters { rd_ios = 4; rd_sectors = 100; rq_ticks = 30 };
    })

abbrev sdb_before : Io Expr
sdb_before = entry_of symbolic 2 0 (record sda { dev = codes "sdb" })

sda_before-IsLater : IsLater sda_before.stat (entry_of symbolic 6 0 sda).stat
sda_before-IsLater = record {
  uptime = (omega arith, omega arith);
  uptime0 = (omega arith, omega arith);
  rd_ios = omega arith;
  wr_ios = omega arith;
  ios = omega arith;
  rd_sectors = omega arith;
  wr_sectors = omega arith;
  sectors = omega arith;
  rd_ticks = omega arith;
  wr_ticks = omega arith;
  ticks = omega arith;
  rd_merges = (omega arith, omega arith);
  wr_merges = (omega arith, omega arith);
  tot_ticks = (omega arith, omega arith);
  rq_ticks = (omega arith, omega arith);
}

sda-ne-sdb : codes "sda" ≢ codes "sdb"
unfolding same_text
sda-ne-sdb = ne_of_same_text (codes "sda") (codes "sdb") refl

collect_record-io_example :
    (io_handlers symbolic (λ s. []) (λ n. none) no_numbers).collect_record
      (with_disks symbolic (λ s. []) (λ n. none) no_numbers now ([] ++ sda ∷ []))
      (record (no_records {F = Expr}) { io = [] ++ (sdb_before ∷ [] ++ sda_before ∷ []) ∷ [] })
    ≡ record no_records {
      io =
          ([] ++ (sdb_before ∷ [] ++ sda_before ∷ []) ∷ [])
          ++ ([] ++ with_rates symbolic 100 1 (entry_of symbolic 6 0 sda) sda_before.stat ∷ [])
            ∷ [];
    }
unfolding get_num_of_cpu count_lines larger is_cpu_line starts_with scan_d lines
    get_cpu_time_in_jiffies read_cpu_stat sum_cpu_stat compute_io_stat scan_lus
collect_record-io_example =
    collect_record-io symbolic (λ s. []) (λ n. none) no_numbers now 100 1 6 0 [] sda [] no_records
      [] (sdb_before ∷ []) sda_before [] refl refl refl refl (sda-Fits, tt) (sda-ne-sdb, tt) refl
      sda_before-IsLater

abbrev next_line : PidLine
next_line = record bash_line { pid = 2000 }

next_line-IsLine : IsLine next_line (codes "115978240 1280")
unfolding print_lu
next_line-IsLine = record {
  tokens = omega arith;
  line = omega arith;
  before = refl;
  between = refl;
  comm = omega arith;
  comm_some = omega arith;
  comm_short = omega arith;
  numbers = omega arith;
}

abbrev next_bash : Process
next_bash = record bash { stat = next_line }

next_bash-IsShown : IsShown one_user next_bash
next_bash-IsShown = record {
  stat = next_line-IsLine;
  status = bash-IsShown.status;
  exe = bash-IsShown.exe;
  names = bash-IsShown.names;
}

abbrev sampled : ℕ → ℕ → Proc Expr
sampled pid cpu_time = record (zero_proc symbolic) {
  pid = pid;
  cpu_time = cpu_time;
  sys_cpu_time = 22000;
}

abbrev counters : CpuStat
counters = (read_cpu_stat proc_system.cpu zero_cpu_stat).0

-- The first process was there before, the second is new, and one has ended.
collect_record-proc_example :
    (proc_handlers symbolic (λ s. []) (λ n. none) no_numbers).collect_record
      (with_entries symbolic
        (λ s. [])
        (λ n. none)
        no_numbers
        now
        (another proc_dot ∷ process bash ∷ [] ++ another proc_uptime ∷ process next_bash ∷ []))
      (record (no_records {F = Expr}) {
        proc = [] ++ (sampled 1234 10 ∷ [] ++ sampled 99 3 ∷ []) ∷ [];
      })
    ≡ record no_records {
      proc =
          ([] ++ (sampled 1234 10 ∷ [] ++ sampled 99 3 ∷ []) ∷ [])
          ++ (with_shares symbolic
                (procs_of symbolic proc_system counters (another proc_dot ∷ process bash ∷ []))
                (sampled 1234 10 ∷ [])
              ++ procs_of symbolic proc_system counters
                  (another proc_uptime ∷ process next_bash ∷ []))
            ∷ [];
    }
unfolding read_cpu_stat is_process starts_with is_digit has_pid set_sys_cpu_time set_pid_mem_until
collect_record-proc_example =
    collect_record-proc symbolic (λ s. []) (λ n. none) no_numbers now counters
      (another proc_dot ∷ process bash ∷ []) (another proc_uptime ∷ process next_bash ∷ [])
      no_records [] (sampled 1234 10 ∷ []) (sampled 99 3 ∷ []) refl
      (refl, (bash-IsShown, (refl, (next_bash-IsShown, tt)))) (refl, tt) (refl, tt)
      ((omega arith, tt), (tt, tt)) (omega arith, (omega arith, tt))
