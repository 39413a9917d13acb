-- ===== src/Proc/Status.antt =====
-- libzsr/proc.c: read_pid_status and read_pid_exe. The user and group databases, the link and its
-- length come from outside. `none` is a read through a null pointer or a write past the end of a field.
pub mod Reading
use zsr.Prelude.{
  ℕ, ◌%◌, ◌^◌, true, false, Option, none, some, List, [], ◌∷◌, Bytes, codes, length, drop, ltb,
  if◌then◌else◌,
}
use zsr.Libc.Text.{starts_with}
use zsr.Libc.Lines.{lines}
use zsr.Libc.Scan.{scan_lu, scan_lu_or}
use zsr.Proc.{Proc}

-- `struct passwd`, of which two members are read.
pub record Passwd : Type 0 where
  pub pw_name : Bytes
  pub pw_gid : ℕ

-- `getpwuid` and the name of `getgrgid`; none: NULL.
pub record Users : Type 0 where
  pub getpwuid : ℕ → Option Passwd
  pub getgrgid : ℕ → Option Bytes

-- `sscanf(s, "%u", &v)` where `v` was `old`.
abbrev uint_or : ℕ → Option (ℕ × Bytes) → ℕ
uint_or old none = old
uint_or old (some (n, s)) = n % 2 ^ 32

module _ {F : Type 0} where
  -- The loop, with the value of `uid`; it ends behind the line of the resident memory.
  unfoldable pub status_lines : List Bytes → ℕ → Proc F → ℕ × Proc F
  status_lines [] uid p = (uid, p)
  status_lines (buf ∷ bufs) uid p = elim (starts_with (codes "Uid:") buf) [
    | true ↦ status_lines bufs (uint_or uid (scan_lu (drop 4 buf))) p
    | false ↦ elim (starts_with (codes "VmSize:") buf) [
      | true ↦
          status_lines bufs uid (record p { virt_mem_kb = scan_lu_or p.virt_mem_kb (drop 7 buf) })
      | false ↦ elim (starts_with (codes "VmRSS:") buf) [
        | true ↦ (uid, record p { res_mem_kb = scan_lu_or p.res_mem_kb (drop 6 buf) })
        | false ↦ status_lines bufs uid p
      ]
    ]
  ]

  -- `strcpy(proc->user, …)` and `strcpy(proc->group, …)`, fields of 128 bytes.
  abbrev pub with_group : Proc F → Option Bytes → Option (Proc F)
  with_group p none = some p
  with_group p (some name) =
      if ltb (length name) 128 then some (record p { group = name }) else none

  -- Without an entry for the user the function still reads `pw->pw_gid`.
  abbrev pub with_user : Users → Proc F → Option Passwd → Option (Proc F)
  with_user users p none = none
  with_user users p (some pw) =
      if ltb (length pw.pw_name) 128
      then with_group (record p { user = pw.pw_name }) (users.getgrgid pw.pw_gid)
      else none

  abbrev pub named : Users → ℕ × Proc F → Option (Proc F)
  named users (uid, p) = with_user users p (users.getpwuid uid)

  -- For the text of /proc/<pid>/status.
  unfoldable pub read_pid_status : Users → Option Bytes → Proc F → Option (Proc F)
  read_pid_status users none p = some p
  read_pid_status users (some text) p = named users (status_lines (lines 128 text) 0 p)

  -- For the target of the link /proc/<pid>/exe as `readlink` stores it, at most 1024 bytes. With 1024
  -- the terminating NUL is written behind the field.
  unfoldable pub read_pid_exe : Option Bytes → Proc F → Option (Proc F)
  read_pid_exe none p = some p
  read_pid_exe (some target) p =
      if ltb (length target) 1024 then some (record p { cmd_path = target }) else none
