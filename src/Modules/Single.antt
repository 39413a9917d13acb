-- ===== src/Modules/Single.antt =====
-- The modules that keep one entry and read into it anew: mod_uptime.c, mod_mem.c, mod_swap.c,
-- mod_gateway.c, mod_time.c and mod_load_avg.c.
pub mod Kept
use zsr.Prelude.{ℕ, Option, none, some, List, [], ◌∷◌, Bytes}
use zsr.Log.{LogCall}
use zsr.Network.Gateway.{get_gateway}
use zsr.Host.{LoadStat, read_load_stat, get_sys_time}
use zsr.Uptime.{Uptime, read_uptime_stat}
use zsr.Meminfo.{MemStat, read_mem_stat, SwapStat, read_swap_stat}

-- An entry that `memset` has cleared.
abbrev pub zero_uptime : Uptime
zero_uptime = record { total_sec = 0; year = 0; month = 0; day = 0; hour = 0; minute = 0 }

abbrev pub zero_mem : MemStat
zero_mem = record { total_kb = 0; used_kb = 0; free_kb = 0 }

abbrev pub zero_swap : SwapStat
zero_swap = record { total_kb = 0; used_kb = 0; free_kb = 0 }

-- The last entry is read into; the others stay.
unfoldable pub read_last : {A : Type 0} → (A → A × List LogCall) → List A → List A × List LogCall
read_last read [] = ([], [])
read_last read (x ∷ []) = let (x', logs) = read x in (x' ∷ [], logs)
read_last read (x ∷ y ∷ xs) = let (xs', logs) = read_last read (y ∷ xs) in (x ∷ xs', logs)

-- An empty list gets a cleared entry first.
unfoldable pub or_cleared : {A : Type 0} → A → List A → List A
or_cleared zero_entry [] = zero_entry ∷ []
or_cleared zero_entry (x ∷ xs) = x ∷ xs

unfoldable pub collect_uptime : Option Bytes → List Uptime → List Uptime × List LogCall
unfolding read_last or_cleared
collect_uptime text entries = read_last (read_uptime_stat text) (or_cleared zero_uptime entries)

unfoldable pub collect_mem : Option Bytes → List MemStat → List MemStat × List LogCall
unfolding read_last or_cleared
collect_mem text entries = read_last (read_mem_stat text) (or_cleared zero_mem entries)

unfoldable pub collect_swap : Option Bytes → List SwapStat → List SwapStat × List LogCall
unfolding read_last or_cleared
collect_swap text entries = read_last (read_swap_stat text) (or_cleared zero_swap entries)

unfoldable pub collect_gateway :
    (ℕ → Option Bytes) → Option Bytes → List Bytes → List Bytes × List LogCall
unfolding read_last or_cleared
collect_gateway inet_ntop text entries =
    read_last (get_gateway inet_ntop text) (or_cleared [] entries)

unfoldable pub collect_time : ℕ → List ℕ → List ℕ × List LogCall
unfolding read_last or_cleared
collect_time now entries = read_last (λ old. (get_sys_time now, [])) (or_cleared 0 entries)

abbrev pub zero_load : {F : Type 0} → F → LoadStat F
zero_load zero_float = record {
  one_min = zero_float;
  five_min = zero_float;
  fifteen_min = zero_float;
}

-- The last entry, read into by a function that may fail.
unfoldable pub try_last :
    {A : Type 0} → (A → Option A × List LogCall) → List A → Option (List A) × List LogCall
try_last read [] = (some [], [])
try_last read (x ∷ []) =
    let (o, logs) = read x in (elim o [ none ↦ none | some y ↦ some (y ∷ []) ], logs)
try_last read (x ∷ y ∷ xs) =
    let (o, logs) = try_last read (y ∷ xs) in
    (elim o [ none ↦ none | some ys ↦ some (x ∷ ys) ], logs)

-- `none` where `read_load_stat` reads a buffer that nothing was written to.
unfoldable pub collect_load_avg :
    {F : Type 0}
    → (Bytes → List F)
    → F
    → Option Bytes
    → List (LoadStat F)
    → Option (List (LoadStat F)) × List LogCall
unfolding try_last or_cleared
collect_load_avg sscanf_f zero_float text entries =
    try_last (read_load_stat sscanf_f text) (or_cleared (zero_load zero_float) entries)
