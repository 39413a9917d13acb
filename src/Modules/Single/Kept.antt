-- ===== src/Modules/Single/Kept.antt =====
-- The modules that keep one entry never hold two.
use zsr.Prelude.{◌≡◌, refl, Option, List, [], ◌∷◌, Bytes}
use zsr.Log.{LogCall}
use zsr.Uptime.{Uptime, read_uptime_stat}
use zsr.Meminfo.{MemStat, read_mem_stat, SwapStat, read_swap_stat}
use zsr.Modules.Single.{collect_uptime, collect_mem, collect_swap, zero_uptime, zero_mem, zero_swap}

-- An entry after it has been read into from each of a sequence of files.
abbrev pub entry_after : {A S : Type 0} → (S → A → A × List LogCall) → A → List S → A
entry_after read x [] = x
entry_after read x (s ∷ shown) = entry_after read (read s x).0 shown

-- The record list after a sequence of collections.
abbrev pub collect_all :
    {A S : Type 0} → (S → List A → List A × List LogCall) → List S → List A → List A
collect_all collect [] entries = entries
collect_all collect (s ∷ shown) entries = collect_all collect shown (collect s entries).0

uptime_single :
    (shown : List (Option Bytes)) (x : Uptime)
    → collect_all collect_uptime shown (x ∷ []) ≡ entry_after read_uptime_stat x shown ∷ []
unfolding collect_uptime
uptime_single [] x = refl
uptime_single (s ∷ shown) x = uptime_single shown (read_uptime_stat s x).0

mem_single :
    (shown : List (Option Bytes)) (x : MemStat)
    → collect_all collect_mem shown (x ∷ []) ≡ entry_after read_mem_stat x shown ∷ []
unfolding collect_mem
mem_single [] x = refl
mem_single (s ∷ shown) x = mem_single shown (read_mem_stat s x).0

swap_single :
    (shown : List (Option Bytes)) (x : SwapStat)
    → collect_all collect_swap shown (x ∷ []) ≡ entry_after read_swap_stat x shown ∷ []
unfolding collect_swap
swap_single [] x = refl
swap_single (s ∷ shown) x = swap_single shown (read_swap_stat s x).0

-- From an empty list, after one collection or more, each of the three modules has exactly one entry,
-- into which all the files have been read in turn.
collect_all-single :
    (text : Option Bytes) (shown : List (Option Bytes))
    → (collect_all collect_uptime (text ∷ shown) []
        ≡ entry_after read_uptime_stat zero_uptime (text ∷ shown) ∷ [])
      × (collect_all collect_mem (text ∷ shown) []
          ≡ entry_after read_mem_stat zero_mem (text ∷ shown) ∷ [])
      × (collect_all collect_swap (text ∷ shown) []
          ≡ entry_after read_swap_stat zero_swap (text ∷ shown) ∷ [])
unfolding collect_uptime collect_mem collect_swap
collect_all-single text shown = (uptime_single shown _, mem_single shown _, swap_single shown _)
