-- ===== src/Proc/Listing.antt =====
-- libzsr/proc.c: store_single_pid_info and get_all_proc. What the system shows during the call is a
-- record; the paths fit their buffers, since the names in /proc are short.
pub mod Processes
use zsr.Prelude.{
  ℕ, Bool, ◌&&◌, not, Option, none, some, List, [], ◌∷◌, ◌++◌, Bytes, codes, if◌then◌else◌,
}
use zsr.Libc.Text.{starts_with}
use zsr.Log.{LogCall}
use zsr.Common.{is_digit}
use zsr.Double.{Double}
use zsr.Cpu.{CpuStat, zero_cpu_stat, read_cpu_stat}
use zsr.Proc.{Proc, set_sys_cpu_time, set_pid_mem_until}
use zsr.Proc.Stat.{read_pid_stat}
use zsr.Proc.Status.{Users, read_pid_status, read_pid_exe}

-- An entry of /proc, with the files below it if it is a directory of a process.
pub record DirEntry : Type 0 where
  pub name : Bytes
  pub is_dir : Bool
  pub stat : Option Bytes
  pub status : Option Bytes
  pub exe : Option Bytes

pub record ProcSystem : Type 0 where
  -- /proc/stat; none: cannot be opened
  pub cpu : Option Bytes
  -- `opendir` and `readdir` on /proc
  pub entries : Option (List DirEntry)
  pub users : Users
  -- `sysinfo`
  pub totalram : Option ℕ

abbrev pub and_then : {A B : Type 0} → Option A → (A → Option B) → Option B
and_then none f = none
and_then (some a) f = f a

unfoldable pub is_process : DirEntry → Bool
is_process e = not (starts_with (codes ".") e.name) && (e.is_dir && is_digit (some e.name))

module _ (D : Double) where
  open D use {F, of_u64}

  -- As `memset` leaves it.
  abbrev pub zero_proc : Proc F
  zero_proc = record {
    pid = 0;
    state = 0;
    ppid = 0;
    user = [];
    group = [];
    virt_mem_kb = 0;
    res_mem_kb = 0;
    mem_util = of_u64 0;
    start_time = 0;
    sys_cpu_time = 0;
    cpu_time = 0;
    cpu_util = of_u64 0;
    cmd = [];
    cmd_path = [];
  }

  -- The last two steps.
  abbrev pub with_totals : Option ℕ → CpuStat → Proc F → Option (Proc F)
  with_totals totalram cpu p = some (set_pid_mem_until D totalram (set_sys_cpu_time cpu p))

  unfoldable pub store_single_pid_info :
      ProcSystem → DirEntry → Proc F → Option (Proc F) × List LogCall
  store_single_pid_info sys e p =
      let (cpu, cpu_logs) = read_cpu_stat sys.cpu zero_cpu_stat in
      let (stored, logs) = read_pid_stat e.name e.stat p in
      (
        and_then stored λ p1.
            and_then (read_pid_exe e.exe p1)
              λ p2. and_then (read_pid_status sys.users e.status p2) (with_totals sys.totalram cpu),
        cpu_logs ++ logs,
      )

  abbrev pub cons_proc :
      Option (Proc F) × List LogCall
      → Option (List (Proc F)) × List LogCall
      → Option (List (Proc F)) × List LogCall
  cons_proc (p, logs) (ps, more) =
      (and_then p (λ q. and_then ps (λ qs. some (q ∷ qs))), logs ++ more)

  -- The loop over the entries; each process gets a cleared node.
  unfoldable pub list_procs : ProcSystem → List DirEntry → Option (List (Proc F)) × List LogCall
  list_procs sys [] = (some [], [])
  list_procs sys (e ∷ es) =
      let rest = list_procs sys es in
      if is_process e then cons_proc (store_single_pid_info sys e zero_proc) rest else rest

  abbrev pub listing : ProcSystem → Option (List DirEntry) → Option (List (Proc F)) × List LogCall
  listing sys none = (some [], [])
  listing sys (some es) = list_procs sys es

  unfoldable pub get_all_proc : ProcSystem → Option (List (Proc F)) × List LogCall
  get_all_proc sys = listing sys sys.entries
