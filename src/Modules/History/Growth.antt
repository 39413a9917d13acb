-- ===== src/Modules/History/Growth.antt =====
-- What the record list of mod_cpu.c holds after many collections, and what its last entry says.
use zsr.Prelude.{
  ◌≤◌, ◌<◌, ◌≡◌, refl, sym, ap₂, ◌∙◌, Option, none, some, List, [], ◌∷◌, ◌++◌, append_assoc,
  append-nil, map, Bytes, length, get_last?, get_last?-append_one, max_u64, All, arith,
}
use zsr.Libc.Lines.{newline}
use zsr.Double.{Double}
use zsr.Cpu.{zero_cpu_stat, Cpu, read_cpu_stat, compute_cpu_stat}
use zsr.Cpu.Sum.{ticks}
use zsr.Cpu.Share.{IsLater, with_shares, compute_cpu_stat-shares}
use zsr.Cpu.Reading.{CpuTimes, times, stored, cpu_line, read_cpu_stat-line}
use zsr.Modules.History.{zero_cpu_stat, zero_cpu, unchanged, collect_cpu}

module _ (D : Double) where
  open D use {F, of_u64, sub}

  -- The record list after the texts of successive collections.
  abbrev pub collect_cpu_all : List (Option Bytes) → List (Cpu F) → List (Cpu F)
  collect_cpu_all [] records = records
  collect_cpu_all (text ∷ texts) records = collect_cpu_all texts (collect_cpu D text records).0

  pub compute-stat :
      (cur : Cpu F) (pre : Option (Cpu F))
      → (unchanged cur (compute_cpu_stat D (some cur) pre)).stat ≡ cur.stat
  unfolding compute_cpu_stat
  compute-stat cur none = refl
  compute-stat cur (some pre) = ground arith

  -- Every collection adds one entry at the end, which holds the counters of its text, and keeps all earlier
  -- entries exactly as they are: nothing is ever changed or taken off the list.
  pub collect_cpu_all-stats :
      (texts : List (Option Bytes)) (records : List (Cpu F))
      → (new : List (Cpu F)) × (collect_cpu_all texts records ≡ records ++ new)
        × (map (λ (c : Cpu F). c.stat) new
            ≡ map (λ text. (read_cpu_stat text zero_cpu_stat).0) texts)
  unfolding collect_cpu
  collect_cpu_all-stats [] records = ([], sym (append-nil records), refl)
  collect_cpu_all-stats (text ∷ texts) records =
      let stat = (read_cpu_stat text zero_cpu_stat).0 in
      let entry =
        unchanged (zero_cpu D stat)
          (compute_cpu_stat D (some (zero_cpu D stat)) (get_last? records)) in
      let (new, kept, stats) = collect_cpu_all-stats texts (records ++ entry ∷ []) in
      (
        entry ∷ new,
        kept ∙ append_assoc records (entry ∷ []) new,
        ap₂ ◌∷◌ (compute-stat (zero_cpu D stat) (get_last? records)) stats,
      )

  -- A collection after one with the counters `p.stat`, where the file begins with a summary line in the order of
  -- proc(5) that fits the buffer and whose counters, as they are stored, are later ones, and ticks
  -- have passed: one entry is added, with the shares between the two, and earlier entries stay. Since
  -- the time of interrupts is stored as stolen time, it is what counts as idle, and the stolen time
  -- of the file counts as busy.
  pub collect_cpu-shares :
      (c : CpuTimes) (rest : Bytes) (records : List (Cpu F)) (p : Cpu F)
      → All (λ n. n ≤ max_u64) (times c)
      → length (cpu_line c) ≤ 126
      → IsLater p.stat (stored c)
      → 0 < ticks p.stat
      → ticks p.stat < ticks (stored c)
      → (collect_cpu D (some (cpu_line c ++ newline ∷ rest)) (records ++ p ∷ [])).0
        ≡ (records ++ p ∷ []) ++ with_shares D p.stat (stored c) ∷ []
  unfolding collect_cpu
  collect_cpu-shares c rest records p fit short later some_ticks passed =
      rw
        (
          read_cpu_stat-line c zero_cpu_stat rest fit short,
          get_last?-append_one records p,
          (compute_cpu_stat-shares D (zero_cpu D (stored c)) p later some_ticks passed).0,
        )
        refl
