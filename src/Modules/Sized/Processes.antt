-- ===== src/Modules/Sized/Processes.antt =====
-- The structures of mod_proc.c.
use zsr.Prelude.{
  ℕ, ◌+◌, Bool, ◌<◌, inl, inr, true, false, Option, none, some, List, [], ◌∷◌, Bytes, codes, length,
  ltb, ◌==◌, Bool-cases, add64, drop, arith,
}
use zsr.Libc.Text.{starts_with}
use zsr.Libc.Lines.{lines, fgets}
use zsr.Libc.Scan.{scan_lu_or}
use zsr.Libc.Scan.Range.{scan_lu_or-range}
use zsr.Libc.Tokens.{tokens}
use zsr.Cpu.{CpuStat}
use zsr.Proc.{Proc, set_sys_cpu_time}
use zsr.Proc.Stat.{
  PidStat, stored_cmd, scan_cmd, until_paren, with_cmd, column, columns, all_columns, with_cpu_time,
  parse_line, read_pid_stat,
}
use zsr.Proc.Status.{
  Passwd, Users, status_lines, with_group, with_user, read_pid_status, read_pid_exe,
}
use zsr.Modules.Sized.{SizedProc}
use zsr.Modules.Sized.Answers.{OfSome}

abbrev IsCmd : Option Bytes → Type 0
IsCmd none = Unit
IsCmd (some s) = length s < 256

stored_cmd-IsCmd : (old s : Bytes) → length old < 256 → IsCmd (stored_cmd old s)
stored_cmd-IsCmd old [] h = h
stored_cmd-IsCmd old (c ∷ s) h = elim (Bool-cases (ltb (length (c ∷ s)) 256)) [
  | inl short ↦ rw short (ground arith)
  | inr long ↦ rw long tt
]

scan_cmd-IsCmd : (old s : Bytes) → length old < 256 → IsCmd (scan_cmd old s)
unfolding scan_cmd
scan_cmd-IsCmd old [] h = h
scan_cmd-IsCmd old (c ∷ s) h = elim (Bool-cases (c == b'(')) [
  | inl paren ↦ rw paren (stored_cmd-IsCmd old (until_paren s) h)
  | inr other ↦ rw other h
]

module _ {F : Type 0} where
  abbrev SizedState : Option (PidStat F) → Type 0
  SizedState none = Unit
  SizedState (some st) = SizedProc st.proc

  with_cmd-Sized :
      (st : PidStat F) (o : Option Bytes) → SizedProc st.proc → IsCmd o → SizedState (with_cmd st o)
  with_cmd-Sized st none h c = tt
  with_cmd-Sized st (some cmd) h c = ground arith

  column-Sized :
      (i : ℕ) (col : Bytes) (st : PidStat F) → SizedProc st.proc → SizedState (column i col st)
  unfolding column
  column-Sized i col st h = ground (
    arith,
    scan_lu_or-range st.proc.pid col h.pid,
    scan_lu_or-range st.proc.ppid col h.ppid,
    scan_lu_or-range st.proc.start_time col h.start_time,
    with_cmd-Sized st (scan_cmd st.proc.cmd col) h (scan_cmd-IsCmd st.proc.cmd col h.cmd),
  )

  columns_step-Sized :
      (o : Option (PidStat F)) (last : Bool) (rest : PidStat F → Option (PidStat F))
      → SizedState o
      → ((st : PidStat F) → SizedProc st.proc → SizedState (rest st))
      → SizedState (elim o as (λ x. Option (PidStat F)) [
        | none ↦ none
        | some st' ↦ elim last as (λ x. Option (PidStat F)) [ true ↦ some st' | false ↦ rest st' ]
      ])
  columns_step-Sized none last rest h hs = tt
  columns_step-Sized (some st) true rest h hs = h
  columns_step-Sized (some st) false rest h hs = hs st h

  columns-Sized :
      (i : ℕ) (cols : List Bytes) (st : PidStat F)
      → SizedProc st.proc
      → SizedState (columns i cols st)
  unfolding columns
  columns-Sized i [] st h = h
  columns-Sized i (col ∷ cols) st h =
      columns_step-Sized (column (i + 1) col st) (i + 1 == 22) (λ st'. columns (i + 1) cols st')
        (column-Sized (i + 1) col st h) (λ st' h'. columns-Sized (i + 1) cols st' h')

  all_columns-Sized :
      (cols : List Bytes) (st : PidStat F) → SizedProc st.proc → SizedState (all_columns cols st)
  all_columns-Sized [] st h = tt
  all_columns-Sized (col ∷ cols) st h = columns-Sized 0 (col ∷ cols) st h

  with_cpu_time-Sized : (o : Option (PidStat F)) → SizedState o → OfSome SizedProc (with_cpu_time o)
  unfolding add64
  with_cpu_time-Sized none h = tt
  with_cpu_time-Sized (some st) h = ground arith

  parse_line-Sized :
      (o : Option (Bytes × Bytes)) (p : Proc F) → SizedProc p → OfSome SizedProc (parse_line o p)
  parse_line-Sized none p h = h
  parse_line-Sized (some (line, rest)) p h =
      with_cpu_time-Sized (all_columns (tokens line) (record { proc = p; utime = 0; stime = 0 }))
        (all_columns-Sized (tokens line) (record { proc = p; utime = 0; stime = 0 }) h)

  pub read_pid_stat-Sized :
      (pid : Bytes) (text : Option Bytes) (p : Proc F)
      → SizedProc p
      → OfSome SizedProc (read_pid_stat pid text p).0
  unfolding read_pid_stat
  read_pid_stat-Sized pid none p h = h
  read_pid_stat-Sized pid (some text) p h = parse_line-Sized (fgets 512 text) p h

  status_lines-Sized :
      (bufs : List Bytes) (uid : ℕ) (p : Proc F)
      → SizedProc p
      → SizedProc (status_lines bufs uid p).1
  unfolding status_lines
  status_lines-Sized [] uid p h = h
  status_lines-Sized (buf ∷ bufs) uid p h = elim (Bool-cases (starts_with (codes "Uid:") buf)) [
    | inl is_uid ↦ rw (is_uid, status_lines) (status_lines-Sized bufs _ p h)
    | inr no_uid ↦ elim (Bool-cases (starts_with (codes "VmSize:") buf)) [
      | inl is_size ↦
          rw (no_uid, is_size, status_lines)
            (status_lines-Sized bufs uid
              (record p { virt_mem_kb = scan_lu_or p.virt_mem_kb (drop 7 buf) })
              (ground (arith, scan_lu_or-range p.virt_mem_kb (drop 7 buf) h.virt_mem_kb)))
      | inr no_size ↦ elim (Bool-cases (starts_with (codes "VmRSS:") buf)) [
        | inl is_rss ↦
            rw (no_uid, no_size, is_rss, status_lines)
              (ground (arith, scan_lu_or-range p.res_mem_kb (drop 6 buf) h.res_mem_kb))
        | inr no_rss ↦ rw (no_uid, no_size, no_rss, status_lines) (status_lines-Sized bufs uid p h)
      ]
    ]
  ]

  with_group-Sized :
      (p : Proc F) (o : Option Bytes) → SizedProc p → OfSome SizedProc (with_group p o)
  with_group-Sized p none h = h
  with_group-Sized p (some name) h = elim (Bool-cases (ltb (length name) 128)) [
    | inl short ↦ rw short (ground arith)
    | inr long ↦ rw long tt
  ]

  with_user-Sized :
      (users : Users) (p : Proc F) (o : Option Passwd)
      → SizedProc p
      → OfSome SizedProc (with_user users p o)
  with_user-Sized users p none h = tt
  with_user-Sized users p (some pw) h = elim (Bool-cases (ltb (length pw.pw_name) 128)) [
    | inl short ↦ rw short (
        with_group-Sized (record p { user = pw.pw_name }) (users.getgrgid pw.pw_gid) (ground arith))
    | inr long ↦ rw long tt
  ]

  pub read_pid_status-Sized :
      (users : Users) (text : Option Bytes) (p : Proc F)
      → SizedProc p
      → OfSome SizedProc (read_pid_status users text p)
  unfolding read_pid_status
  read_pid_status-Sized users none p h = h
  read_pid_status-Sized users (some text) p h =
      with_user-Sized users (status_lines (lines 128 text) 0 p).1
        (users.getpwuid (status_lines (lines 128 text) 0 p).0)
        (status_lines-Sized (lines 128 text) 0 p h)

  pub read_pid_exe-Sized :
      (exe : Option Bytes) (p : Proc F) → SizedProc p → OfSome SizedProc (read_pid_exe exe p)
  unfolding read_pid_exe
  read_pid_exe-Sized none p h = h
  read_pid_exe-Sized (some target) p h = elim (Bool-cases (ltb (length target) 1024)) [
    | inl short ↦ rw short (ground arith)
    | inr long ↦ rw long tt
  ]

  pub set_sys_cpu_time-Sized :
      (cpu : CpuStat) (p : Proc F) → SizedProc p → SizedProc (set_sys_cpu_time cpu p)
  unfolding set_sys_cpu_time
  set_sys_cpu_time-Sized cpu p h = ground arith
