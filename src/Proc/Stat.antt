-- ===== src/Proc/Stat.antt =====
-- libzsr/proc.c: read_pid_stat, the columns of /proc/<pid>/stat. `none` is a write past the end of
-- `cmd` or a read through a null pointer.
pub mod Columns
pub mod Line
use zsr.Prelude.{
  ℕ, ◌+◌, true, false, Option, none, some, List, [], ◌∷◌, ◌++◌, Bytes, codes, length, ltb, ◌==◌,
  if◌then◌else◌, add64,
}
use zsr.Libc.Lines.{fgets}
use zsr.Libc.Scan.{scan_lu_or}
use zsr.Libc.Tokens.{tokens}
use zsr.Log.{LogCall, log_error, with_errno}
use zsr.Proc.{Proc, to_proc_file}

-- The bytes up to the first ')'.
unfoldable pub until_paren : Bytes → Bytes
until_paren [] = []
until_paren (c ∷ s) = let rest = until_paren s in if c == b')' then [] else c ∷ rest

-- `%[^)]` converts one byte at least, and `cmd` has room for 255.
abbrev pub stored_cmd : Bytes → Bytes → Option Bytes
stored_cmd old [] = some old
stored_cmd old (c ∷ s) = if ltb (length (c ∷ s)) 256 then some (c ∷ s) else none

-- `sscanf(col, "(%[^)]s)", &proc->cmd)`.
unfoldable pub scan_cmd : Bytes → Bytes → Option Bytes
unfolding until_paren
scan_cmd old [] = some old
scan_cmd old (c ∷ s) = if c == b'(' then stored_cmd old (until_paren s) else some old

-- `sscanf(col, "%c", &proc->state)`.
abbrev pub scan_c : ℕ → Bytes → ℕ
scan_c old [] = old
scan_c old (c ∷ s) = c

-- The structure that is filled, and the two local times.
pub record PidStat (F : Type 0) : Type 0 where
  pub proc : Proc F
  pub utime : ℕ
  pub stime : ℕ

module _ {F : Type 0} where
  abbrev pub with_cmd : PidStat F → Option Bytes → Option (PidStat F)
  with_cmd st none = none
  with_cmd st (some cmd) = some (record st { proc = record st.proc { cmd = cmd } })

  -- The switch, for the column `i` from 1 on.
  unfoldable pub column : ℕ → Bytes → PidStat F → Option (PidStat F)
  column i col st =
      if i == 1
      then some (record st { proc = record st.proc { pid = scan_lu_or st.proc.pid col } })
      else if i == 2
      then with_cmd st (scan_cmd st.proc.cmd col)
      else if i == 3
      then some (record st { proc = record st.proc { state = scan_c st.proc.state col } })
      else if i == 4
      then some (record st { proc = record st.proc { ppid = scan_lu_or st.proc.ppid col } })
      else if i == 14
      then some (record st { utime = scan_lu_or st.utime col })
      else if i == 15
      then some (record st { stime = scan_lu_or st.stime col })
      else if i == 22
      then some
          (record st { proc = record st.proc { start_time = scan_lu_or st.proc.start_time col } })
      else some st

  -- The loop over the columns, behind `i` of them; it ends with column 22.
  unfoldable pub columns : ℕ → List Bytes → PidStat F → Option (PidStat F)
  columns i [] st = some st
  columns i (col ∷ cols) st = elim (column (i + 1) col st) [
    | none ↦ none
    | some st' ↦ elim (i + 1 == 22) [ true ↦ some st' | false ↦ columns (i + 1) cols st' ]
  ]

  -- `do … while`: the first column is read even if there is none.
  abbrev pub all_columns : List Bytes → PidStat F → Option (PidStat F)
  all_columns [] st = none
  all_columns (col ∷ cols) st = columns 0 (col ∷ cols) st

  abbrev pub with_cpu_time : Option (PidStat F) → Option (Proc F)
  with_cpu_time none = none
  with_cpu_time (some st) = some (record st.proc { cpu_time = add64 st.utime st.stime })

  abbrev pub parse_line : Option (Bytes × Bytes) → Proc F → Option (Proc F)
  parse_line none p = some p
  parse_line (some (line, rest)) p =
      with_cpu_time (all_columns (tokens line) (record { proc = p; utime = 0; stime = 0 }))

  -- For the text of /proc/<pid>/stat.
  unfoldable pub read_pid_stat : Bytes → Option Bytes → Proc F → Option (Proc F) × List LogCall
  read_pid_stat pid none p =
      (some p, with_errno log_error (some (to_proc_file pid (codes "stat"))) ∷ [])
  read_pid_stat pid (some text) p = (parse_line (fgets 512 text) p, [])
