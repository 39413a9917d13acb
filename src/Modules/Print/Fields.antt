-- ===== src/Modules/Print/Fields.antt =====
-- The numbers that a module prints can be read back from its line.
use zsr.Prelude.{
  ℕ, zero, suc, ◌≤◌, ◌≡◌, refl, ap, ◌∙◌, Option, none, some, List, [], ◌∷◌, ◌++◌, append_assoc,
  Bytes, codes, drop, length, get_last?-append_one, max_u64, All,
}
use zsr.Libc.Scan.{scan_lu}
use zsr.Libc.Print.{print_lu}
use zsr.Libc.Print.RoundTrip.{scan_lu-print_lu}
use zsr.Uptime.{Uptime}
use zsr.Meminfo.{MemStat}
use zsr.Modules.Print.{comma_list, uptime_to_str, mem_to_str}

-- A reader of `k` numbers, each with one byte behind it.
abbrev after_first : (Bytes → List ℕ) → Option (ℕ × Bytes) → List ℕ
after_first read none = []
after_first read (some (n, rest)) = n ∷ read (drop 1 rest)

abbrev pub read_values : ℕ → Bytes → List ℕ
read_values zero s = []
read_values (suc k) s = after_first (read_values k) (scan_lu s)

read_values-comma_list :
    (ns : List ℕ)
    → All (λ n. n ≤ max_u64) ns
    → read_values (length ns) (comma_list ns ++ codes ";\n") ≡ ns
read_values-comma_list [] fit = refl
read_values-comma_list (n ∷ []) (f, fit) =
    ap (after_first (read_values 0)) (scan_lu-print_lu n (codes ";\n") f refl)
read_values-comma_list (n ∷ m ∷ ns) (f, fit) =
    ap (after_first (read_values (suc (length ns)))) (
      ap scan_lu (append_assoc (print_lu n) (codes "," ++ comma_list (m ∷ ns)) (codes ";\n"))
      ∙ scan_lu-print_lu n _ f refl)
    ∙ ap (λ t. n ∷ t) (read_values-comma_list (m ∷ ns) fit)

-- The lines of mod_uptime.c and mod_mem.c are of the last entry of their list, begin with the module's name,
-- and give back the entry's numbers in the order of the module's columns: the total of seconds, years,
-- months, days, hours and minutes; and the total, the used and the free memory.
pub to_str-values :
    (ups : List Uptime) (up : Uptime) (mems : List MemStat) (m : MemStat)
    → All (λ n. n ≤ max_u64) (up.total_sec ∷ up.year ∷ up.month ∷ up.day ∷ up.hour ∷ up.minute ∷ [])
    → All (λ n. n ≤ max_u64) (m.total_kb ∷ m.used_kb ∷ m.free_kb ∷ [])
    → ((line : Bytes) × (uptime_to_str (ups ++ up ∷ []) ≡ some (codes "uptime=" ++ line))
        × (read_values 6 line
            ≡ up.total_sec ∷ up.year ∷ up.month ∷ up.day ∷ up.hour ∷ up.minute ∷ []))
      × ((line : Bytes) × (mem_to_str (mems ++ m ∷ []) ≡ some (codes "mem=" ++ line))
          × (read_values 3 line ≡ m.total_kb ∷ m.used_kb ∷ m.free_kb ∷ []))
unfolding uptime_to_str mem_to_str
to_str-values ups up mems m fit fit' = (
  (
    comma_list (up.total_sec ∷ up.year ∷ up.month ∷ up.day ∷ up.hour ∷ up.minute ∷ [])
        ++ codes ";\n",
    rw (get_last?-append_one ups up) refl,
    read_values-comma_list (up.total_sec ∷ up.year ∷ up.month ∷ up.day ∷ up.hour ∷ up.minute ∷ [])
        fit,
  ),
  (
    comma_list (m.total_kb ∷ m.used_kb ∷ m.free_kb ∷ []) ++ codes ";\n",
    rw (get_last?-append_one mems m) refl,
    read_values-comma_list (m.total_kb ∷ m.used_kb ∷ m.free_kb ∷ []) fit',
  ),
)
