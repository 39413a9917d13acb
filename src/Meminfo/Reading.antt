-- ===== src/Meminfo/Reading.antt =====
-- What is read from /proc/meminfo.
use zsr.Prelude.{
  ℕ, zero, suc, ◌-◌, ◌≤◌, ◌≡◌, refl, ap, ◌∙◌, false, some, List, [], ◌∷◌, ◌++◌, append_assoc, map,
  Bytes, String, codes, replicate, sub64_exact, max_u64, All, arith,
}
use zsr.Libc.Text.{starts_with}
use zsr.Libc.Lines.{newline, join_lines, FitsBuffer, lines-join_lines}
use zsr.Libc.Scan.{scan_lu_or}
use zsr.Libc.Print.{print_lu}
use zsr.Libc.Print.RoundTrip.{scan_lu-space, scan_lu_or-print_lu, Stops}
use zsr.Meminfo.{MemStat, read_mem_lines, read_mem_stat, SwapStat, read_swap_lines, read_swap_stat}

-- `<name><spaces><number> kB`
abbrev pub info_line : String → ℕ → ℕ → Bytes
info_line name pad n = codes name ++ (replicate pad 32 ++ (print_lu n ++ codes " kB"))

scan_lu_or-space : (old : ℕ) (s : Bytes) → scan_lu_or old (32 ∷ s) ≡ scan_lu_or old s
unfolding scan_lu_or
scan_lu_or-space old s = rw (scan_lu-space s) refl

pub scan_lu_or-padded :
    (old pad n : ℕ) (rest : Bytes)
    → n ≤ max_u64
    → Stops rest
    → scan_lu_or old (replicate pad 32 ++ (print_lu n ++ rest)) ≡ n
scan_lu_or-padded old zero n rest fits stops = scan_lu_or-print_lu old n rest fits stops
scan_lu_or-padded old (suc pad) n rest fits stops =
    scan_lu_or-space old (replicate pad 32 ++ (print_lu n ++ rest))
    ∙ scan_lu_or-padded old pad n rest fits stops

-- The same with the newline that `fgets` leaves in the buffer.
scan_lu_or-field :
    (old pad n : ℕ)
    → n ≤ max_u64
    → scan_lu_or old ((replicate pad 32 ++ (print_lu n ++ codes " kB")) ++ newline ∷ []) ≡ n
scan_lu_or-field old pad n fits =
    ap (scan_lu_or old) (
      append_assoc (replicate pad 32) (print_lu n ++ codes " kB") (newline ∷ [])
      ∙ ap (λ t. replicate pad 32 ++ t) (append_assoc (print_lu n) (codes " kB") (newline ∷ [])))
    ∙ scan_lu_or-padded old pad n (codes " kB" ++ newline ∷ []) fits refl

-- A line that is neither of the two that `read_swap_stat` reads.
pub record IsOther (l : Bytes) : Type 0 where
  pub no_total : starts_with (codes "SwapTotal:") (l ++ newline ∷ []) ≡ false
  pub no_free : starts_with (codes "SwapFree:") (l ++ newline ∷ []) ≡ false

mem_lines-total :
    (pad n : ℕ) (bufs : List Bytes) (m : MemStat)
    → n ≤ max_u64
    → read_mem_lines ((info_line "MemTotal:" pad n ++ newline ∷ []) ∷ bufs) m
      ≡ read_mem_lines bufs (record m { total_kb = n })
unfolding read_mem_lines starts_with
mem_lines-total pad n bufs m fits =
    ap (λ t. read_mem_lines bufs (record m { total_kb = t }))
      (scan_lu_or-field m.total_kb pad n fits)

mem_lines-free :
    (pad n : ℕ) (bufs : List Bytes) (m : MemStat)
    → n ≤ max_u64
    → read_mem_lines ((info_line "MemFree:" pad n ++ newline ∷ []) ∷ bufs) m
      ≡ read_mem_lines bufs (record m { free_kb = n })
unfolding read_mem_lines starts_with
mem_lines-free pad n bufs m fits =
    ap (λ t. read_mem_lines bufs (record m { free_kb = t })) (scan_lu_or-field m.free_kb pad n fits)

mem_lines-other :
    (buf : Bytes) (bufs : List Bytes) (m : MemStat)
    → starts_with (codes "MemTotal:") buf ≡ false
    → starts_with (codes "MemFree:") buf ≡ false
    → read_mem_lines (buf ∷ bufs) m ≡ m
unfolding read_mem_lines
mem_lines-other buf bufs m no_total no_free = rw (read_mem_lines, no_total, no_free) refl

-- The three lines at the beginning of the file that decide what `read_mem_stat` reads.
abbrev pub mem_head : ℕ → ℕ → ℕ → ℕ → Bytes → List Bytes
mem_head total pad free pad' next =
    info_line "MemTotal:" pad total ∷ info_line "MemFree:" pad' free ∷ next ∷ []

-- /proc/meminfo begins with the lines of the total and the free memory; the line behind them is
-- another. Then these two numbers are read, and what is used is their difference.
pub read_mem_stat-info :
    (total pad free pad' : ℕ) (next rest : Bytes) (old : MemStat)
    → free ≤ total
    → total ≤ max_u64
    → All (FitsBuffer 128) (mem_head total pad free pad' next)
    → starts_with (codes "MemTotal:") (next ++ newline ∷ []) ≡ false
    → starts_with (codes "MemFree:") (next ++ newline ∷ []) ≡ false
    → read_mem_stat (some (join_lines (mem_head total pad free pad' next) ++ rest)) old
      ≡ (record { total_kb = total; used_kb = total - free; free_kb = free }, [])
unfolding read_mem_stat
read_mem_stat-info total pad free pad' next rest old le fits lens no_total no_free =
    rw
      (
        lines-join_lines 126 (mem_head total pad free pad' next) rest lens,
        mem_lines-total pad total _ old fits,
        mem_lines-free pad' free _ (record old { total_kb = total }) (omega arith),
        mem_lines-other _ _ _ no_total no_free,
        sub64_exact total free le (omega arith),
      )
      refl

swap_lines-total :
    (pad n : ℕ) (bufs : List Bytes) (m : SwapStat)
    → n ≤ max_u64
    → read_swap_lines ((info_line "SwapTotal:" pad n ++ newline ∷ []) ∷ bufs) m
      ≡ read_swap_lines bufs (record m { total_kb = n })
unfolding read_swap_lines starts_with
swap_lines-total pad n bufs m fits =
    ap (λ t. read_swap_lines bufs (record m { total_kb = t }))
      (scan_lu_or-field m.total_kb pad n fits)

swap_lines-free :
    (pad n : ℕ) (bufs : List Bytes) (m : SwapStat)
    → n ≤ max_u64
    → read_swap_lines ((info_line "SwapFree:" pad n ++ newline ∷ []) ∷ bufs) m
      ≡ record m { free_kb = n }
unfolding read_swap_lines starts_with
swap_lines-free pad n bufs m fits =
    ap (λ t. record m { free_kb = t }) (scan_lu_or-field m.free_kb pad n fits)

swap_lines-other :
    (l : Bytes) (bufs : List Bytes) (m : SwapStat)
    → IsOther l
    → read_swap_lines ((l ++ newline ∷ []) ∷ bufs) m ≡ read_swap_lines bufs m
unfolding read_swap_lines
swap_lines-other l bufs m o = rw (read_swap_lines, o.no_total, o.no_free) refl

abbrev terminated : List Bytes → List Bytes
terminated ls = map (λ l. l ++ newline ∷ []) ls

swap_lines-to_total :
    (ls : List Bytes) (pad n : ℕ) (tail : List Bytes) (bufs : List Bytes) (m : SwapStat)
    → n ≤ max_u64
    → All IsOther ls
    → read_swap_lines (terminated (ls ++ info_line "SwapTotal:" pad n ∷ tail) ++ bufs) m
      ≡ read_swap_lines (terminated tail ++ bufs) (record m { total_kb = n })
swap_lines-to_total [] pad n tail bufs m fits h = swap_lines-total pad n _ m fits
swap_lines-to_total (l ∷ ls) pad n tail bufs m fits (o, h) =
    swap_lines-other l _ m o ∙ swap_lines-to_total ls pad n tail bufs m fits h

swap_lines-to_free :
    (ls : List Bytes) (pad n : ℕ) (bufs : List Bytes) (m : SwapStat)
    → n ≤ max_u64
    → All IsOther ls
    → read_swap_lines (terminated (ls ++ info_line "SwapFree:" pad n ∷ []) ++ bufs) m
      ≡ record m { free_kb = n }
swap_lines-to_free [] pad n bufs m fits h = swap_lines-free pad n _ m fits
swap_lines-to_free (l ∷ ls) pad n bufs m fits (o, h) =
    swap_lines-other l _ m o ∙ swap_lines-to_free ls pad n bufs m fits h

-- The file down to the line of the free swap.
abbrev pub swap_head : List Bytes → List Bytes → ℕ → ℕ → ℕ → ℕ → List Bytes
swap_head before between total pad free pad' =
    before ++ info_line "SwapTotal:" pad total ∷ (between ++ info_line "SwapFree:" pad' free ∷ [])

-- /proc/meminfo holds a line of the total and, further down, a line of the free swap; the lines
-- before and between are others, and all fit the buffer. Then these two numbers are read, whatever
-- follows, and what is used is their difference.
read_swap_stat-info :
    (before between : List Bytes) (total pad free pad' : ℕ) (rest : Bytes) (old : SwapStat)
    → free ≤ total
    → total ≤ max_u64
    → All IsOther before
    → All IsOther between
    → All (FitsBuffer 128) (swap_head before between total pad free pad')
    → read_swap_stat (some (join_lines (swap_head before between total pad free pad') ++ rest)) old
      ≡ (record { total_kb = total; used_kb = total - free; free_kb = free }, [])
unfolding read_swap_stat
read_swap_stat-info before between total pad free pad' rest old le fits other other' lens =
    rw
      (
        lines-join_lines 126 (swap_head before between total pad free pad') rest lens,
        swap_lines-to_total before pad total _ _ old fits other,
        swap_lines-to_free between pad' free _ (record old { total_kb = total }) (omega arith)
            other',
        sub64_exact total free le (omega arith),
      )
      refl
