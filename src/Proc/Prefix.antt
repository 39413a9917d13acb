-- ===== src/Proc/Prefix.antt =====
-- The first loop of `compute_proc_cpu_stat` where the two lists begin with the same processes.
use zsr.Prelude.{
  ℕ, zero, suc, ◌+◌, ◌≡◌, refl, true, false, some, List, [], ◌∷◌, ◌++◌, get_elem?, drop, arith, All,
}
use zsr.Proc.{ProcCpuStat, has_pid, difference, differences}

-- The differences of two lists, position by position.
unfoldable pub pairwise : List ProcCpuStat → List ProcCpuStat → List ProcCpuStat
pairwise [] prevs = []
pairwise (x ∷ curs) [] = []
pairwise (x ∷ curs) (y ∷ prevs) = difference x y ∷ pairwise curs prevs

abbrev pub SamePids : List ProcCpuStat → List ProcCpuStat → Type 0
SamePids [] [] = Unit
SamePids [] (y ∷ prevs) = ⊥
SamePids (x ∷ curs) [] = ⊥
SamePids (x ∷ curs) (y ∷ prevs) = (x.pid ≡ y.pid) × SamePids curs prevs

abbrev pub IsNew : List ProcCpuStat → ProcCpuStat → Type 0
IsNew prevs x = has_pid x.pid prevs ≡ false

drop-cons :
    (c : ℕ) (prevs : List ProcCpuStat) (y : ProcCpuStat) (rest : List ProcCpuStat)
    → drop c prevs ≡ y ∷ rest
    → (get_elem? prevs c ≡ some y) × (has_pid y.pid prevs ≡ true) × (drop (suc c) prevs ≡ rest)
unfolding has_pid
drop-cons zero [] y rest h = cc
drop-cons zero (x ∷ prevs) y rest h = ground arith
drop-cons (suc c) [] y rest h = cc
drop-cons (suc c) (x ∷ prevs) y rest h = ground (arith, drop-cons c prevs y rest h)

differences-new :
    (c : ℕ) (curs prevs : List ProcCpuStat)
    → All (IsNew prevs) curs
    → differences c curs prevs ≡ some []
unfolding differences
differences-new c [] prevs h = refl
differences-new c (x ∷ curs) prevs (n, h) = rw n (differences-new (c + 1) curs prevs h)

differences-known :
    (c : ℕ) (x y : ProcCpuStat) (curs prevs ds : List ProcCpuStat)
    → has_pid x.pid prevs ≡ true
    → get_elem? prevs c ≡ some y
    → differences (suc c) curs prevs ≡ some ds
    → differences c (x ∷ curs) prevs ≡ some (difference x y ∷ ds)
unfolding differences
differences-known c x y curs prevs ds known at rest =
    let step : c + 1 ≡ suc c = omega arith in rw (known, at, step, rest) refl

-- Lists of one length.
abbrev pub Paired : List ProcCpuStat → List ProcCpuStat → Type 0
Paired [] [] = Unit
Paired [] (y ∷ prevs) = ⊥
Paired (x ∷ curs) [] = ⊥
Paired (x ∷ curs) (y ∷ prevs) = Paired curs prevs

abbrev pub IsKnown : List ProcCpuStat → ProcCpuStat → Type 0
IsKnown prevs x = has_pid x.pid prevs ≡ true

-- Each known process is compared with what stands at its own position.
pub differences-positions :
    (c : ℕ) (same olds new prevs rest : List ProcCpuStat)
    → drop c prevs ≡ olds ++ rest
    → Paired same olds
    → All (IsKnown prevs) same
    → All (IsNew prevs) new
    → differences c (same ++ new) prevs ≡ some (pairwise same olds)
unfolding pairwise
differences-positions c [] [] new prevs rest at h known fresh = differences-new c new prevs fresh
differences-positions c [] (y ∷ olds) new prevs rest at h known fresh = absurd h
differences-positions c (x ∷ same) [] new prevs rest at h known fresh = absurd h
differences-positions c (x ∷ same) (y ∷ olds) new prevs rest at h (k, known) fresh =
    let (here, _, next) = drop-cons c prevs y (olds ++ rest) at in
    differences-known c x y (same ++ new) prevs (pairwise same olds) k here
      (differences-positions (suc c) same olds new prevs rest next h known fresh)

pub SamePids-Paired : (same olds : List ProcCpuStat) → SamePids same olds → Paired same olds
SamePids-Paired [] [] h = tt
SamePids-Paired [] (y ∷ olds) h = absurd h
SamePids-Paired (x ∷ same) [] h = absurd h
SamePids-Paired (x ∷ same) (y ∷ olds) (e, h) = SamePids-Paired same olds h

pub differences-aligned :
    (c : ℕ) (same olds new prevs rest : List ProcCpuStat)
    → drop c prevs ≡ olds ++ rest
    → SamePids same olds
    → All (IsNew prevs) new
    → differences c (same ++ new) prevs ≡ some (pairwise same olds)
unfolding pairwise
differences-aligned c [] [] new prevs rest at h fresh = differences-new c new prevs fresh
differences-aligned c [] (y ∷ olds) new prevs rest at h fresh = absurd h
differences-aligned c (x ∷ same) [] new prevs rest at h fresh = absurd h
differences-aligned c (x ∷ same) (y ∷ olds) new prevs rest at (e, h) fresh =
    let (here, known, next) = drop-cons c prevs y (olds ++ rest) at in
    differences-known c x y (same ++ new) prevs (pairwise same olds) (rw e known) here
      (differences-aligned (suc c) same olds new prevs rest next h fresh)
