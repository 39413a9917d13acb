-- ===== src/Proc/Utilisation.antt =====
-- What `compute_proc_cpu_stat` does to the current list.
use zsr.Prelude.{
  ◌≡◌, refl, sym, ap, ◌∙◌, Option, none, some, List, [], ◌∷◌, map, length, arith, some-injective,
}
use zsr.Double.{Double}
use zsr.Proc.{Proc, ProcCpuStat, fill, set_share, set_shares, finish, compute_proc_cpu_stat}

module _ (D : Double) where
  open D use {F, of_u64, mul, div}

  -- A record without its share.
  abbrev pub without_share : F → Proc F → Proc F
  without_share none_yet p = record p { cpu_util = none_yet }

  set_share-frame :
      (u : F) (d : ProcCpuStat) (ps : List (Proc F))
      → map (without_share u) (set_share D d ps) ≡ map (without_share u) ps
  unfolding set_share
  set_share-frame u d [] = refl
  set_share-frame u d (p ∷ ps) = ground (arith, set_share-frame u d ps)

  set_shares-frame :
      (u : F) (ds : List ProcCpuStat) (ps : List (Proc F))
      → map (without_share u) (set_shares D ds ps) ≡ map (without_share u) ps
  unfolding set_shares
  set_shares-frame u [] ps = refl
  set_shares-frame u (d ∷ ds) ps = set_shares-frame u ds (set_share D d ps) ∙ set_share-frame u d ps

  finish-frame :
      (u : F) (cur : List (Proc F)) (o : Option (List ProcCpuStat)) (r : List (Proc F))
      → finish D cur o ≡ some r
      → map (without_share u) r ≡ map (without_share u) cur
  finish-frame u cur none r h = cc
  finish-frame u cur (some cs) r h =
      ap (map (without_share u)) (sym (some-injective _ _ h))
      ∙ set_shares-frame u (fill (length cur) cs) cur

  -- When the function returns, the current list has the same processes in the same order, and of each
  -- at most the share of processor time is another.
  compute_proc_cpu_stat-frame :
      (u : F) (cur prev r : List (Proc F))
      → compute_proc_cpu_stat D cur prev ≡ some r
      → map (without_share u) r ≡ map (without_share u) cur
  unfolding compute_proc_cpu_stat
  compute_proc_cpu_stat-frame u cur prev r h = finish-frame u cur _ r h
