-- ===== src/Meminfo.antt =====
-- libzsr/mem.c and libzsr/swap.c: two readers of /proc/meminfo. A file that cannot be opened is `none`;
-- the list links are left out.
pub mod Reading
use zsr.Prelude.{ℕ, Bool, true, false, Option, none, some, List, [], ◌∷◌, Bytes, codes, drop, sub64}
use zsr.Libc.Text.{starts_with}
use zsr.Libc.Lines.{lines}
use zsr.Libc.Scan.{scan_lu_or}
use zsr.Log.{LogCall, log_error_of}

pub record MemStat : Type 0 where
  pub total_kb : ℕ
  pub used_kb : ℕ
  pub free_kb : ℕ

-- The loop ends at the first buffer that is neither of the two lines.
unfoldable pub read_mem_lines : List Bytes → MemStat → MemStat
read_mem_lines [] mem = mem
read_mem_lines (buf ∷ bufs) mem = elim (starts_with (codes "MemTotal:") buf) [
  | true ↦ read_mem_lines bufs (record mem { total_kb = scan_lu_or mem.total_kb (drop 9 buf) })
  | false ↦ elim (starts_with (codes "MemFree:") buf) [
    | true ↦ read_mem_lines bufs (record mem { free_kb = scan_lu_or mem.free_kb (drop 8 buf) })
    | false ↦ mem
  ]
]

mem_used : MemStat → MemStat
mem_used mem = record mem { used_kb = sub64 mem.total_kb mem.free_kb }

unfoldable pub read_mem_stat : Option Bytes → MemStat → MemStat × List LogCall
unfolding mem_used read_mem_lines
read_mem_stat none mem = (mem, log_error_of "/proc/meminfo" ∷ [])
read_mem_stat (some text) mem = (mem_used (read_mem_lines (lines 128 text) mem), [])

pub record SwapStat : Type 0 where
  pub total_kb : ℕ
  pub used_kb : ℕ
  pub free_kb : ℕ

-- The loop passes over other lines, and ends behind the line of the free swap.
unfoldable pub read_swap_lines : List Bytes → SwapStat → SwapStat
read_swap_lines [] swap = swap
read_swap_lines (line ∷ lines) swap = elim (starts_with (codes "SwapTotal:") line) [
  | true ↦
      read_swap_lines lines (record swap { total_kb = scan_lu_or swap.total_kb (drop 10 line) })
  | false ↦ elim (starts_with (codes "SwapFree:") line) [
    | true ↦ record swap { free_kb = scan_lu_or swap.free_kb (drop 9 line) }
    | false ↦ read_swap_lines lines swap
  ]
]

swap_used : SwapStat → SwapStat
swap_used swap = record swap { used_kb = sub64 swap.total_kb swap.free_kb }

unfoldable pub read_swap_stat : Option Bytes → SwapStat → SwapStat × List LogCall
unfolding swap_used read_swap_lines
read_swap_stat none swap = (swap, log_error_of "/proc/meminfo" ∷ [])
read_swap_stat (some text) swap = (swap_used (read_swap_lines (lines 128 text) swap), [])
