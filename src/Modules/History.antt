-- ===== src/Modules/History.antt =====
-- The modules that keep every sample and compare the last two: mod_cpu.c, mod_proc.c and mod_io.c.
pub mod Growth
use zsr.Prelude.{ℕ, Bool, Option, none, some, List, [], ◌∷◌, ◌++◌, Bytes, get_last?}
use zsr.Log.{LogCall}
use zsr.Double.{Double}
use zsr.Cpu.{zero_cpu_stat, CpuStat, Cpu, read_cpu_stat, compute_cpu_stat}
use zsr.Proc.{Proc, compute_proc_cpu_stat}
use zsr.Io.{Io, compute_io_stat}

abbrev pub unchanged : {A : Type 0} → A → Option A → A
unchanged old none = old
unchanged old (some new) = new

module _ (D : Double) where
  open D use {F, of_u64}

  -- `memset` clears the shares too.
  abbrev pub zero_cpu : CpuStat → Cpu F
  zero_cpu stat = record { idle = of_u64 0; util = of_u64 0; wa = of_u64 0; stat = stat }

  -- `collect_record` of mod_cpu.c on the text of /proc/stat.
  unfoldable pub collect_cpu : Option Bytes → List (Cpu F) → List (Cpu F) × List LogCall
  collect_cpu text records =
      let (stat, logs) = read_cpu_stat text zero_cpu_stat in
      let entry = zero_cpu stat in
      (records ++ unchanged entry (compute_cpu_stat D (some entry) (get_last? records)) ∷ [], logs)

  abbrev pub computed_procs : List (Proc F) → Option (List (Proc F)) → Option (List (Proc F))
  computed_procs cur none = some cur
  computed_procs cur (some prev) = compute_proc_cpu_stat D cur prev

  abbrev pub add_sample : {A : Type 0} → List A → Option A → Option (List A)
  add_sample samples none = none
  add_sample samples (some s) = some (samples ++ s ∷ [])

  -- `collect_record` of mod_proc.c, from the processes that `get_all_proc` has read; `none` is a read
  -- out of bounds.
  unfoldable pub collect_proc : List (Proc F) → List (List (Proc F)) → Option (List (List (Proc F)))
  collect_proc cur samples = add_sample samples (computed_procs cur (get_last? samples))

  abbrev pub computed_io : ℕ → ℕ → List (Io F) → Option (List (Io F)) → List (Io F)
  computed_io hz num_of_cpu cur none = cur
  computed_io hz num_of_cpu cur (some prev) = compute_io_stat D hz num_of_cpu cur prev

  -- `collect_record` of mod_io.c, from the entries that `read_io_stat` has read.
  unfoldable pub collect_io : ℕ → ℕ → List (Io F) → List (List (Io F)) → List (List (Io F))
  collect_io hz num_of_cpu cur samples =
      samples ++ computed_io hz num_of_cpu cur (get_last? samples) ∷ []
