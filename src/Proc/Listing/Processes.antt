-- ===== src/Proc/Listing/Processes.antt =====
-- `get_all_proc` where every process shows well-formed files.
use zsr.Prelude.{
  ◌<◌, ◌≡◌, refl, ap, ◌∙◌, inl, false, true, some, List, [], ◌∷◌, ◌++◌, Bytes, codes, length, ltb,
  All, arith, add64,
}
use zsr.Libc.Text.{starts_with, IsDigit}
use zsr.Libc.Lines.{newline}
use zsr.Libc.Tokens.{join_tokens}
use zsr.Libc.Print.{print_lu}
use zsr.Libc.Print.RoundTrip.{All-print_lu}
use zsr.Common.Numeral.{IsRun, IsNumeral, is_digit_iff}
use zsr.Double.{Double}
use zsr.Cpu.{CpuStat, zero_cpu_stat, read_cpu_stat}
use zsr.Proc.{Proc, set_sys_cpu_time, set_pid_mem_until}
use zsr.Proc.Stat.Line.{PidLine, pid_tokens, IsLine, read_pid_stat-line}
use zsr.Proc.Status.{Passwd, Users, read_pid_exe}
use zsr.Proc.Status.Reading.{StatusText, status_text, IsStatus, HasUser, read_pid_status-text}
use zsr.Proc.Listing.{
  DirEntry, ProcSystem, is_process, zero_proc, store_single_pid_info, list_procs, listing,
  get_all_proc,
}

-- What the system shows of a process: the directory is named by its number.
pub record Process : Type 0 where
  pub stat : PidLine
  -- the rest of the line, and what follows it
  pub stat_more : Bytes
  pub stat_rest : Bytes
  pub status : StatusText
  pub exe : Bytes
  pub passwd : Passwd
  pub group : Bytes

pub record IsShown (users : Users) (p : Process) : Type 0 where
  pub stat : IsLine p.stat p.stat_more
  pub status : IsStatus p.status
  pub exe : length p.exe < 1024
  pub names : HasUser users p.status.uid p.passwd p.group

-- An entry of /proc: a process, or something else that `readdir` returns.
pub data Entry : Type 0 where
  process : Process → Entry
  another : DirEntry → Entry

abbrev pub process_entry : Process → DirEntry
process_entry p = record {
  name = print_lu p.stat.pid;
  is_dir = true;
  stat = some ((join_tokens (pid_tokens p.stat) ++ p.stat_more) ++ newline ∷ p.stat_rest);
  status = some (status_text p.status);
  exe = some p.exe;
}

abbrev pub dir_entries : List Entry → List DirEntry
dir_entries [] = []
dir_entries (process p ∷ es) = process_entry p ∷ dir_entries es
dir_entries (another e ∷ es) = e ∷ dir_entries es

abbrev pub AllShown : Users → List Entry → Type 0
AllShown users [] = Unit
AllShown users (process p ∷ es) = IsShown users p × AllShown users es
AllShown users (another e ∷ es) = (is_process e ≡ false) × AllShown users es

digits-IsRun : (s : Bytes) → All IsDigit s → IsRun s
digits-IsRun [] h = tt
digits-IsRun (c ∷ []) (d, h) = d
digits-IsRun (c ∷ d ∷ s) (h, hs) = inl (h, digits-IsRun (d ∷ s) hs)

digits-IsNumeral : (s : Bytes) → All IsDigit s → IsNumeral s
digits-IsNumeral [] h = tt
digits-IsNumeral (c ∷ s) (d, h) = inl (digits-IsRun (c ∷ s) (d, h), omega arith)

digits-no_dot : (s : Bytes) → All IsDigit s → starts_with (codes ".") s ≡ false
unfolding starts_with
digits-no_dot [] h = refl
digits-no_dot (c ∷ s) (d, h) = ground arith

-- A directory named by a number is one of a process.
is_process-entry : (p : Process) → is_process (process_entry p) ≡ true
unfolding is_process
is_process-entry p =
    let digits = All-print_lu IsDigit (λ c d. d) p.stat.pid in
    rw
      (
        digits-no_dot (print_lu p.stat.pid) digits,
        (is_digit_iff (print_lu p.stat.pid)).1 (digits-IsNumeral (print_lu p.stat.pid) digits),
      )
      refl

module _ (D : Double) where
  open D use {F}

  -- What the stat file says of a process.
  abbrev stat_proc : Process → Proc F
  stat_proc p = record (zero_proc D) {
    pid = p.stat.pid;
    cmd = p.stat.comm;
    state = p.stat.state;
    ppid = p.stat.ppid;
    cpu_time = add64 p.stat.utime p.stat.stime;
    start_time = p.stat.start_time;
  }

  -- The structure of a process, for the counters of all processors.
  abbrev pub proc_of : ProcSystem → CpuStat → Process → Proc F
  proc_of sys cpu p = set_pid_mem_until D sys.totalram (
      set_sys_cpu_time cpu (record (stat_proc p) {
        cmd_path = p.exe;
        virt_mem_kb = p.status.size_kb;
        res_mem_kb = p.status.rss_kb;
        user = p.passwd.pw_name;
        group = p.group;
      }))

  abbrev pub procs_of : ProcSystem → CpuStat → List Entry → List (Proc F)
  procs_of sys cpu [] = []
  procs_of sys cpu (process p ∷ es) = proc_of sys cpu p ∷ procs_of sys cpu es
  procs_of sys cpu (another e ∷ es) = procs_of sys cpu es

  module _ (sys : ProcSystem) (cpu : CpuStat)
      (counters : read_cpu_stat sys.cpu zero_cpu_stat ≡ (cpu, [])) where
    store_single_pid_info-shown :
        (p : Process)
        → IsShown sys.users p
        → store_single_pid_info D sys (process_entry p) (zero_proc D)
          ≡ (some (proc_of sys cpu p), [])
    unfolding store_single_pid_info read_pid_exe
    store_single_pid_info-shown p h =
        let short : ltb (length p.exe) 1024 ≡ true = ground (arith, h.exe) in
        rw
          (
            counters,
            read_pid_stat-line (print_lu p.stat.pid) p.stat p.stat_more p.stat_rest (zero_proc D)
                h.stat,
            short,
            read_pid_status-text sys.users p.status p.passwd p.group
                (record (stat_proc p) { cmd_path = p.exe }) h.status h.names,
          )
          refl

    list_procs-shown :
        (es : List Entry)
        → AllShown sys.users es
        → list_procs D sys (dir_entries es) ≡ (some (procs_of sys cpu es), [])
    unfolding list_procs
    list_procs-shown [] h = refl
    list_procs-shown (process p ∷ es) (shown, h) =
        rw (is_process-entry p, store_single_pid_info-shown p shown, list_procs-shown es h) refl
    list_procs-shown (another e ∷ es) (skipped, h) = rw skipped (list_procs-shown es h)

  -- Where /proc holds processes with well-formed files, among other entries, and the counters of all
  -- processors are read: the result has one structure for each process, in the order of the
  -- directory, with the columns of its stat file, its memory, the names of its user and group and its
  -- path. The other entries are left out, and nothing is logged.
  pub get_all_proc-shown :
      (sys : ProcSystem) (cpu : CpuStat) (es : List Entry)
      → read_cpu_stat sys.cpu zero_cpu_stat ≡ (cpu, [])
      → AllShown sys.users es
      → sys.entries ≡ some (dir_entries es)
      → get_all_proc D sys ≡ (some (procs_of sys cpu es), [])
  unfolding get_all_proc
  get_all_proc-shown sys cpu es counters h shown =
      ap (listing D sys) shown ∙ list_procs-shown sys cpu counters es h
