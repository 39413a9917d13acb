-- ===== src/Proc/Aligned.antt =====
-- When the shares that `compute_proc_cpu_stat` sets are right: it reads the earlier sample at the
-- position of the current process, whatever process stands there.
use zsr.Prelude.{
  ℕ, zero, suc, ◌-◌, ◌≡◌, ◌≢◌, refl, ap, ◌∙◌, some, List, [], ◌∷◌, ◌++◌, map, map-append, length,
  sub64, replicate, arith, All,
}
use zsr.Double.{Double}
use zsr.Proc.Prefix.{
  pairwise, SamePids, Paired, IsKnown, SamePids-Paired, IsNew, differences-aligned,
  differences-positions,
}
use zsr.Proc.{
  Proc, ProcCpuStat, sample, difference, unwritten, cpu_share, set_share, set_shares,
  compute_proc_cpu_stat,
}

module _ (D : Double) where
  open D use {F, of_u64, mul, div}

  -- The share of the processor time that has passed between two samples.
  abbrev pub share_since : Proc F → Proc F → F
  share_since p q =
      div (mul (of_u64 (sub64 p.cpu_time q.cpu_time)) (of_u64 100))
        (of_u64 (sub64 p.sys_cpu_time q.sys_cpu_time))

  -- Each of the first processes with the share since its own earlier sample, and then the rest.
  abbrev pub with_shares : List (Proc F) → List (Proc F) → List (Proc F)
  with_shares [] olds = []
  with_shares (p ∷ same) [] = []
  with_shares (p ∷ same) (q ∷ olds) =
      record p { cpu_util = share_since p q } ∷ with_shares same olds

  abbrev pub Distinct : List (Proc F) → Type 0
  Distinct [] = Unit
  Distinct (p ∷ ps) = All (λ q. p.pid ≢ q.pid) ps × Distinct ps

  abbrev pub NotZero : Proc F → Type 0
  NotZero p = p.pid ≢ 0

  set_share-pass :
      (d : ProcCpuStat) (p : Proc F) (ps : List (Proc F))
      → p.pid ≢ d.pid
      → set_share D d (p ∷ ps) ≡ p ∷ set_share D d ps
  unfolding set_share
  set_share-pass d p ps h = ground arith

  set_share-hit :
      (d : ProcCpuStat) (p : Proc F) (ps : List (Proc F))
      → p.pid ≡ d.pid
      → set_share D d (p ∷ ps) ≡ record p { cpu_util = cpu_share D d } ∷ ps
  unfolding set_share
  set_share-hit d p ps h = ground arith

  set_shares-pass :
      (ds : List ProcCpuStat) (p : Proc F) (ps : List (Proc F))
      → All (λ d. p.pid ≢ d.pid) ds
      → set_shares D ds (p ∷ ps) ≡ p ∷ set_shares D ds ps
  unfolding set_shares
  set_shares-pass [] p ps h = refl
  set_shares-pass (d ∷ ds) p ps (ne, h) =
      ap (set_shares D ds) (set_share-pass d p ps ne) ∙ set_shares-pass ds p (set_share D d ps) h

  set_shares-append :
      (ds es : List ProcCpuStat) (ps : List (Proc F))
      → set_shares D (ds ++ es) ps ≡ set_shares D es (set_shares D ds ps)
  unfolding set_shares
  set_shares-append [] es ps = refl
  set_shares-append (d ∷ ds) es ps = set_shares-append ds es (set_share D d ps)

  set_share-unwritten : (ps : List (Proc F)) → All NotZero ps → set_share D unwritten ps ≡ ps
  unfolding set_share
  set_share-unwritten [] h = refl
  set_share-unwritten (p ∷ ps) (n, h) = ground (arith, set_share-unwritten ps h)

  set_shares-unwritten :
      (n : ℕ) (ps : List (Proc F)) → All NotZero ps → set_shares D (replicate n unwritten) ps ≡ ps
  unfolding set_shares
  set_shares-unwritten zero ps h = refl
  set_shares-unwritten (suc n) ps h =
      ap (set_shares D (replicate n unwritten)) (set_share-unwritten ps h)
      ∙ set_shares-unwritten n ps h

  others_apart :
      (p : Proc F) (same olds new : List (Proc F))
      → All (λ q. p.pid ≢ q.pid) (same ++ new)
      → All (λ (d : ProcCpuStat). p.pid ≢ d.pid) (pairwise (map sample same) (map sample olds))
  unfolding pairwise difference
  others_apart p [] olds new h = tt
  others_apart p (q ∷ same) [] new h = tt
  others_apart p (q ∷ same) (r ∷ olds) new (ne, h) = (ne, others_apart p same olds new h)

  set_shares-positions :
      (same olds new : List (Proc F))
      → Paired (map sample same) (map sample olds)
      → Distinct (same ++ new)
      → set_shares D (pairwise (map sample same) (map sample olds)) (same ++ new)
        ≡ with_shares same olds ++ new
  unfolding pairwise set_shares difference cpu_share
  set_shares-positions [] [] new h distinct = refl
  set_shares-positions [] (q ∷ olds) new h distinct = absurd h
  set_shares-positions (p ∷ same) [] new h distinct = absurd h
  set_shares-positions (p ∷ same) (q ∷ olds) new h (apart, distinct) =
      let ds : List ProcCpuStat = pairwise (map sample same) (map sample olds) in
      let d : ProcCpuStat = difference (sample p) (sample q) in
      let p' : Proc F = record p { cpu_util = cpu_share D d } in
      ap (set_shares D ds) (set_share-hit d p (same ++ new) refl)
      ∙ set_shares-pass ds p' (same ++ new) (others_apart p same olds new apart)
      ∙ ap (λ t. p' ∷ t) (set_shares-positions same olds new h distinct)

  with_shares-NotZero :
      (same olds new : List (Proc F))
      → All NotZero (same ++ new)
      → All NotZero new × All NotZero (with_shares same olds ++ new)
  with_shares-NotZero [] olds new h = (h, h)
  with_shares-NotZero (p ∷ same) [] new (n, h) =
      let tails = with_shares-NotZero same [] new h in (tails.0, tails.0)
  with_shares-NotZero (p ∷ same) (q ∷ olds) new (n, h) =
      let tails = with_shares-NotZero same olds new h in (tails.0, (n, tails.1))

  -- The earlier and the current list begin with the samples of the same processes, in the same
  -- order; behind these the earlier list has any others, and the current one only processes that
  -- the earlier list does not have. No pid occurs twice in the current list, and none is 0. Then
  -- the function returns, each of the first processes has its share of the time since its own
  -- earlier sample, and the new ones are left as they are.
  pub compute_proc_cpu_stat-aligned :
      (same olds new gone : List (Proc F))
      → SamePids (map sample same) (map sample olds)
      → All (IsNew (map sample olds ++ map sample gone)) (map sample new)
      → Distinct (same ++ new)
      → All NotZero (same ++ new)
      → compute_proc_cpu_stat D (same ++ new) (olds ++ gone) ≡ some (with_shares same olds ++ new)
  unfolding compute_proc_cpu_stat
  compute_proc_cpu_stat-aligned same olds new gone h fresh distinct nz =
      rw
        (
          map-append sample same new,
          map-append sample olds gone,
          differences-aligned 0 (map sample same) (map sample olds) (map sample new)
              (map sample olds ++ map sample gone) (map sample gone) refl h fresh,
        )
        (ap some (
          set_shares-append ds (replicate pad unwritten) (same ++ new)
          ∙ ap (set_shares D (replicate pad unwritten)) (
              set_shares-positions same olds new
                (SamePids-Paired (map sample same) (map sample olds) h) distinct)
          ∙ set_shares-unwritten pad (with_shares same olds ++ new)
              (with_shares-NotZero same olds new nz).1))
    where
      ds : List ProcCpuStat
      ds = pairwise (map sample same) (map sample olds)

      pad : ℕ
      pad = length (same ++ new) - length ds

  -- Where the known processes are not in step: the current list begins with processes whose pids the earlier list
  -- has anywhere, and then has only new ones. No pid occurs twice in the current list, and none is 0.
  -- Then each known process gets the share since the earlier sample at its own position, whatever
  -- process that sample is of; so behind one that has ended each gets that of its neighbour.
  pub compute_proc_cpu_stat-positions :
      (known olds new gone : List (Proc F))
      → Paired (map sample known) (map sample olds)
      → All (IsKnown (map sample olds ++ map sample gone)) (map sample known)
      → All (IsNew (map sample olds ++ map sample gone)) (map sample new)
      → Distinct (known ++ new)
      → All NotZero (known ++ new)
      → compute_proc_cpu_stat D (known ++ new) (olds ++ gone) ≡ some (with_shares known olds ++ new)
  unfolding compute_proc_cpu_stat
  compute_proc_cpu_stat-positions known olds new gone h seen fresh distinct nz =
      rw
        (
          map-append sample known new,
          map-append sample olds gone,
          differences-positions 0 (map sample known) (map sample olds) (map sample new)
              (map sample olds ++ map sample gone) (map sample gone) refl h seen fresh,
        )
        (ap some (
          set_shares-append ds (replicate pad unwritten) (known ++ new)
          ∙ ap (set_shares D (replicate pad unwritten))
              (set_shares-positions known olds new h distinct)
          ∙ set_shares-unwritten pad (with_shares known olds ++ new)
              (with_shares-NotZero known olds new nz).1))
    where
      ds : List ProcCpuStat
      ds = pairwise (map sample known) (map sample olds)

      pad : ℕ
      pad = length (known ++ new) - length ds
