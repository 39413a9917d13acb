-- ===== src/Cpu/Count.antt =====
-- libzsr/cpu.c: get_num_of_cpu, the number of processors that /proc/stat lists.
pub mod Largest
use zsr.Prelude.{
  ℕ, zero, suc, ◌+◌, ◌<◌, ◌≤◌, ◌≡◌, ◌↔◌, refl, inl, inr, Bool, true, false, ◌&&◌, not, Bool-cases,
  Option, none, some, List, [], ◌∷◌, ◌++◌, Bytes, codes, drop, All, arith, if◌then◌else◌,
}
use zsr.Prelude.Signed.{ℤ, pos, negsuc, lt_ℤ}
use zsr.Libc.Text.{starts_with}
use zsr.Libc.Lines.{lines, newline}
use zsr.Libc.Scan.{scan_d}
use zsr.Log.{LogCall, LogLevel, log_fatal, with_message}

-- The line of one processor: "cpu", but not "cpu ".
unfoldable pub is_cpu_line : Bytes → Bool
is_cpu_line line = not (starts_with (codes "cpu ") line) && starts_with (codes "cpu") line

-- `sscanf` assigns to `cpu_num` if it converts.
abbrev pub assigned : Option ℤ → Option ℤ → Option ℤ
assigned old none = old
assigned old (some n) = some n

-- `if (cpu_num > num_of_cpu)`; `none`: `cpu_num` is read before anything was assigned to it.
unfoldable pub larger : ℤ → Option ℤ → Option ℤ
larger num_of_cpu none = none
larger num_of_cpu (some cpu_num) = some (if lt_ℤ num_of_cpu cpu_num then cpu_num else num_of_cpu)

-- The loop, with the values of `cpu_num` and `num_of_cpu`.
unfoldable pub count_lines : List Bytes → Option ℤ → ℤ → Option ℤ
count_lines [] cpu_num num_of_cpu = some num_of_cpu
count_lines (line ∷ bufs) cpu_num num_of_cpu = elim (is_cpu_line line) [
  | true ↦
      let next = assigned cpu_num (scan_d (drop 3 line)) in
      elim (larger num_of_cpu next) [ none ↦ none | some most ↦ count_lines bufs next most ]
  | false ↦ count_lines bufs cpu_num num_of_cpu
]

-- `(uint)(n + 1)`, of a number that is at least -1.
abbrev next_uint : ℤ → ℕ
next_uint (pos n) = n + 1
next_uint (negsuc n) = 0

-- How the function ends: it returns, or ends the process, or reads a variable that nothing was
-- assigned to.
pub data Count : Type 0 where
  returned : ℕ → Count
  exited : LogCall → Count
  undefined : Count

abbrev counted : Option ℤ → Count
counted none = undefined
counted (some n) = returned (next_uint n)

-- The text of /proc/stat, and the text of `errno` where it cannot be opened.
unfoldable pub get_num_of_cpu : Option Bytes → Bytes → Count
get_num_of_cpu none error =
    exited (with_message log_fatal (codes "Cannot open /proc/stat: " ++ (error ++ newline ∷ [])))
get_num_of_cpu (some text) error = counted (count_lines (lines 16 text) none (negsuc 0))
