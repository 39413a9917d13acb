-- ===== src/Cpu.antt =====
-- libzsr/cpu.c: the counters of /proc/stat and the shares between two samples. The list links of
-- `cpu_t` are left out; a null pointer is `none`, and so is a file that cannot be opened.
pub mod Sum
pub mod Share
pub mod Reading
pub mod Count
use zsr.Prelude.{
  ℕ, ◌+◌, ◌%◌, Bool, true, false, ◌||◌, Option, none, some, List, [], ◌∷◌, Bytes, codes, drop,
  get_or, ◌==◌, if◌then◌else◌, u64_mod, add64, sub64,
}
use zsr.Libc.Text.{starts_with}
use zsr.Libc.Lines.{lines}
use zsr.Libc.Scan.{scan_lus}
use zsr.Log.{LogCall, log_error_of}
use zsr.Double.{Double}

pub record CpuStat : Type 0 where
  pub user : ℕ
  pub nice : ℕ
  pub sys : ℕ
  pub idle : ℕ
  pub iowait : ℕ
  pub steal : ℕ
  pub hardirq : ℕ
  pub softirq : ℕ
  pub guest : ℕ
  pub number : ℕ

-- As `memset` and `{ 0 }` leave it.
abbrev pub zero_cpu_stat : CpuStat
zero_cpu_stat = record {
  user = 0;
  nice = 0;
  sys = 0;
  idle = 0;
  iowait = 0;
  steal = 0;
  hardirq = 0;
  softirq = 0;
  guest = 0;
  number = 0;
}

pub record Cpu (F : Type 0) : Type 0 where
  pub idle : F
  pub util : F
  pub wa : F
  pub stat : CpuStat

-- The counters that `sscanf` has converted replace the old ones.
unfoldable pub assign : List ℕ → CpuStat → CpuStat
assign vs cpu = record {
  user = get_or vs 0 cpu.user;
  nice = get_or vs 1 cpu.nice;
  sys = get_or vs 2 cpu.sys;
  idle = get_or vs 3 cpu.idle;
  iowait = get_or vs 4 cpu.iowait;
  steal = get_or vs 5 cpu.steal;
  hardirq = get_or vs 6 cpu.hardirq;
  softirq = get_or vs 7 cpu.softirq;
  guest = get_or vs 8 cpu.guest;
  number = get_or vs 9 cpu.number;
}

-- The loop over the buffers ends at the first that begins with "cpu ".
unfoldable pub read_cpu_lines : List Bytes → CpuStat → CpuStat
read_cpu_lines [] cpu = cpu
read_cpu_lines (buf ∷ bufs) cpu =
    if starts_with (codes "cpu ") buf
    then assign (scan_lus 10 (drop 4 buf)) cpu
    else read_cpu_lines bufs cpu

unfoldable pub read_cpu_stat : Option Bytes → CpuStat → CpuStat × List LogCall
unfolding read_cpu_lines assign starts_with
read_cpu_stat none cpu = (cpu, log_error_of "/proc/stat" ∷ [])
read_cpu_stat (some text) cpu = (read_cpu_lines (lines 128 text) cpu, [])

unfoldable pub sum_cpu_stat : CpuStat → ℕ
sum_cpu_stat s =
    (s.hardirq + s.idle + s.iowait + s.nice + s.softirq + s.steal + s.sys + s.user) % u64_mod

module _ (D : Double) where
  open D use {F, of_u64, sub, mul, div}

  -- The shares of a record, given the ticks that have passed.
  shares : Cpu F → CpuStat → ℕ → Cpu F
  unfolding add64 sub64
  shares cur ps total =
      let cs = cur.stat in
      let idle =
        div (mul (of_u64 (add64 (sub64 cs.idle ps.idle) (sub64 cs.steal ps.steal))) (of_u64 100))
          (of_u64 total) in
      record {
        idle = idle;
        util = sub (of_u64 100) idle;
        wa = div (mul (of_u64 (sub64 cs.iowait ps.iowait)) (of_u64 100)) (of_u64 total);
        stat = cs;
      }

  compute_records : Cpu F → Cpu F → Cpu F
  unfolding shares sum_cpu_stat
  compute_records cur pre =
      let pre_total = sum_cpu_stat pre.stat in
      let total = sub64 (sum_cpu_stat cur.stat) pre_total in
      if pre_total == 0 then cur else if total == 0 then cur else shares cur pre.stat total

  -- What `*cur_record` is afterwards.
  unfoldable pub compute_cpu_stat : Option (Cpu F) → Option (Cpu F) → Option (Cpu F)
  unfolding compute_records
  compute_cpu_stat none pre = none
  compute_cpu_stat (some cur) none = some cur
  compute_cpu_stat (some cur) (some pre) = some (compute_records cur pre)
