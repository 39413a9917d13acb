-- ===== src/Proc.antt =====
-- libzsr/proc.c: the processes, and the share of processor time of each between two samples. The
-- list links of `proc_t` are left out. The arrays that the function allocates are lists; a read past
-- the end of one is a fault, `none`.
pub mod Bounds
pub mod Utilisation
pub mod Prefix
pub mod Aligned
pub mod Stat
pub mod Status
pub mod Listing
use zsr.Prelude.{
  ℕ, zero, suc, ◌+◌, ◌-◌, ◌%◌, Bool, true, false, ◌||◌, Option, none, some, List, [], ◌∷◌, ◌++◌,
  map, Bytes, codes, length, get_elem?, replicate, ◌==◌, if◌then◌else◌, u64_mod, sub64,
}
use zsr.Cpu.{CpuStat}
use zsr.Double.{Double, round_with_prec}

pub record Proc (F : Type 0) : Type 0 where
  pub pid : ℕ
  pub state : ℕ
  pub ppid : ℕ
  pub user : Bytes
  pub group : Bytes
  pub virt_mem_kb : ℕ
  pub res_mem_kb : ℕ
  pub mem_util : F
  pub start_time : ℕ
  pub sys_cpu_time : ℕ
  pub cpu_time : ℕ
  pub cpu_util : F
  pub cmd : Bytes
  pub cmd_path : Bytes

-- `to_proc_file`.
unfoldable pub to_proc_file : Bytes → Bytes → Bytes
to_proc_file pid file = codes "/proc/" ++ (pid ++ (codes "/" ++ file))

-- One index of the three arrays of `proc_cpu_stat_array_t`.
pub record ProcCpuStat : Type 0 where
  pub pid : ℕ
  pub sys_cpu_time : ℕ
  pub cpu_time : ℕ

-- The loops that copy a list into its arrays.
abbrev pub sample : {F : Type 0} → Proc F → ProcCpuStat
sample p = record { pid = p.pid; sys_cpu_time = p.sys_cpu_time; cpu_time = p.cpu_time }

-- The inner loop: is the pid among the earlier ones?
unfoldable pub has_pid : ℕ → List ProcCpuStat → Bool
has_pid pid [] = false
has_pid pid (p ∷ ps) = pid == p.pid || has_pid pid ps

unfoldable pub difference : ProcCpuStat → ProcCpuStat → ProcCpuStat
unfolding sub64
difference cur prev = record {
  pid = cur.pid;
  sys_cpu_time = sub64 cur.sys_cpu_time prev.sys_cpu_time;
  cpu_time = sub64 cur.cpu_time prev.cpu_time;
}

abbrev cons_difference :
    ProcCpuStat → Option ProcCpuStat → Option (List ProcCpuStat) → Option (List ProcCpuStat)
cons_difference cur none rest = none
cons_difference cur (some prev) none = none
cons_difference cur (some prev) (some rest) = some (difference cur prev ∷ rest)

-- The outer loop from index `c` on, where `curs` are the current samples from there: the entries
-- that it writes to `cs_array`. The earlier arrays are read at `c`.
unfoldable pub differences : ℕ → List ProcCpuStat → List ProcCpuStat → Option (List ProcCpuStat)
unfolding has_pid difference
differences c [] prevs = some []
differences c (cur ∷ curs) prevs =
    let rest = differences (c + 1) curs prevs in
    if has_pid cur.pid prevs then cons_difference cur (get_elem? prevs c) rest else rest

-- `calloc` has cleared the entries that are not written.
abbrev unwritten : ProcCpuStat
unwritten = record { pid = 0; sys_cpu_time = 0; cpu_time = 0 }

abbrev pub fill : ℕ → List ProcCpuStat → List ProcCpuStat
fill n cs = cs ++ replicate (n - length cs) unwritten

module _ (D : Double) where
  open D use {F, of_u64, mul, div}

  unfoldable pub cpu_share : ProcCpuStat → F
  cpu_share d = div (mul (of_u64 d.cpu_time) (of_u64 100)) (of_u64 d.sys_cpu_time)

  -- The first entry with the pid gets the share.
  unfoldable pub set_share : ProcCpuStat → List (Proc F) → List (Proc F)
  unfolding cpu_share
  set_share d [] = []
  set_share d (p ∷ ps) =
      if p.pid == d.pid then record p { cpu_util = cpu_share d } ∷ ps else p ∷ set_share d ps

  unfoldable pub set_shares : List ProcCpuStat → List (Proc F) → List (Proc F)
  unfolding set_share
  set_shares [] ps = ps
  set_shares (d ∷ ds) ps = set_shares ds (set_share d ps)

  abbrev pub finish : List (Proc F) → Option (List ProcCpuStat) → Option (List (Proc F))
  finish cur none = none
  finish cur (some cs) = some (set_shares (fill (length cur) cs) cur)

  -- The current list afterwards.
  unfoldable pub compute_proc_cpu_stat : List (Proc F) → List (Proc F) → Option (List (Proc F))
  unfolding set_shares
  compute_proc_cpu_stat cur prev = finish cur (differences 0 (map sample cur) (map sample prev))

  -- `set_pid_mem_until`, for the total of memory that `sysinfo` answers, if it succeeds.
  unfoldable pub set_pid_mem_until : Option ℕ → Proc F → Proc F
  set_pid_mem_until none p = p
  set_pid_mem_until (some totalram) p = record p {
    mem_util =
        round_with_prec D
          (div (mul (mul (of_u64 p.res_mem_kb) (of_u64 1024)) (of_u64 100)) (of_u64 totalram)) 2;
  }

-- `set_sys_cpu_time`: here the guest counters are added too.
unfoldable pub set_sys_cpu_time : {F : Type 0} → CpuStat → Proc F → Proc F
set_sys_cpu_time cpu p = record p {
  sys_cpu_time =
      (cpu.guest + cpu.hardirq + cpu.idle + cpu.iowait + cpu.nice + cpu.number + cpu.softirq
        + cpu.steal + cpu.sys + cpu.user)
      % u64_mod;
}
