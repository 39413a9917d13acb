-- ===== src/Proc/Bounds.antt =====
-- When `compute_proc_cpu_stat` reads out of bounds.
use zsr.Prelude.{
  ℕ, zero, suc, ◌+◌, ◌≤◌, ◌≡◌, ◌↔◌, ◌⊎◌, inl, inr, refl, true, Option, none, some, List, [], ◌∷◌,
  map, length, get_elem?, arith, Bool-cases,
}
use zsr.Double.{Double}
use zsr.Proc.{
  Proc, ProcCpuStat, sample, has_pid, differences, cons_difference, finish, compute_proc_cpu_stat,
}

-- A current process whose pid was there before stands at a position that the earlier list has not.
pub record Overrun (c : ℕ) (curs prevs : List ProcCpuStat) : Type 0 where
  pub index : ℕ
  pub cur : ProcCpuStat
  pub at_index : get_elem? curs index ≡ some cur
  pub known : has_pid cur.pid prevs ≡ true
  pub past : length prevs ≤ c + index

get_elem?-none : {A : Type 0} (xs : List A) (i : ℕ) → (get_elem? xs i ≡ none) ↔ (length xs ≤ i)
get_elem?-none [] i = ground arith
get_elem?-none (x ∷ xs) zero = ground arith
get_elem?-none (x ∷ xs) (suc i) = ground (arith, get_elem?-none xs i)

cons_difference-none :
    (cur : ProcCpuStat) (p : Option ProcCpuStat) (rest : Option (List ProcCpuStat))
    → (cons_difference cur p rest ≡ none)
    → (p ≡ none) ⊎ (rest ≡ none)
cons_difference-none cur none rest h = inl refl
cons_difference-none cur (some p) none h = inr refl
cons_difference-none cur (some p) (some rest) h = cc

later-Overrun :
    {c : ℕ} (x : ProcCpuStat) {curs prevs : List ProcCpuStat}
    → Overrun (c + 1) curs prevs
    → Overrun c (x ∷ curs) prevs
later-Overrun x o = record {
  index = suc o.index;
  cur = o.cur;
  at_index = o.at_index;
  known = o.known;
  past = omega (arith, o.past);
}

Overrun-of_none :
    (c : ℕ) (curs prevs : List ProcCpuStat) → differences c curs prevs ≡ none → Overrun c curs prevs
unfolding differences
Overrun-of_none c [] prevs h = cc
Overrun-of_none c (x ∷ curs) prevs h = elim (Bool-cases (has_pid x.pid prevs)) [
  | inr new ↦ later-Overrun x (Overrun-of_none (c + 1) curs prevs (rw new at h))
  | inl old ↦
      elim (cons_difference-none x (get_elem? prevs c) (differences (c + 1) curs prevs)
        (rw old at h)) [
          | inl out ↦ record {
            index = 0;
            cur = x;
            at_index = refl;
            known = old;
            past = omega (arith, (get_elem?-none prevs c).0 out);
          }
          | inr more ↦ later-Overrun x (Overrun-of_none (c + 1) curs prevs more)
        ]
]

cons_difference-rest_none :
    (cur : ProcCpuStat) (p : Option ProcCpuStat) → cons_difference cur p none ≡ none
cons_difference-rest_none cur none = refl
cons_difference-rest_none cur (some p) = refl

differences-none_here :
    (c : ℕ) (x : ProcCpuStat) (curs prevs : List ProcCpuStat)
    → has_pid x.pid prevs ≡ true
    → length prevs ≤ c
    → differences c (x ∷ curs) prevs ≡ none
unfolding differences
differences-none_here c x curs prevs old past = rw (old, (get_elem?-none prevs c).1 past) refl

differences-none_later :
    (c : ℕ) (x : ProcCpuStat) (curs prevs : List ProcCpuStat)
    → differences (c + 1) curs prevs ≡ none
    → differences c (x ∷ curs) prevs ≡ none
unfolding differences
differences-none_later c x curs prevs e = elim (Bool-cases (has_pid x.pid prevs)) [
  | inl old ↦ rw (old, e) (cons_difference-rest_none x (get_elem? prevs c))
  | inr new ↦ rw (new, e) refl
]

none_at :
    (c : ℕ) (curs prevs : List ProcCpuStat) (i : ℕ) (cur : ProcCpuStat)
    → get_elem? curs i ≡ some cur
    → has_pid cur.pid prevs ≡ true
    → length prevs ≤ c + i
    → differences c curs prevs ≡ none
none_at c [] prevs i cur at known past = cc
none_at c (x ∷ curs) prevs zero cur at known past =
    differences-none_here c x curs prevs (ground arith) (omega arith)
none_at c (x ∷ curs) prevs (suc i) cur at known past =
    differences-none_later c x curs prevs (none_at (c + 1) curs prevs i cur at known (omega arith))

finish-none_iff :
    (D : Double) (cur : List (Proc D.F)) (o : Option (List ProcCpuStat))
    → (finish D cur o ≡ none) ↔ (o ≡ none)
finish-none_iff D cur none = ground arith
finish-none_iff D cur (some cs) = ground arith

-- The function reads past the end of an array exactly when a current process whose pid the earlier
-- list has stands at a position that the earlier list does not have.
pub compute_proc_cpu_stat-none_iff :
    (D : Double) (cur prev : List (Proc D.F))
    → (compute_proc_cpu_stat D cur prev ≡ none) ↔ Overrun 0 (map sample cur) (map sample prev)
unfolding compute_proc_cpu_stat
compute_proc_cpu_stat-none_iff D cur prev = (
  λ h. Overrun-of_none 0 _ _ ((finish-none_iff D cur _).0 h),
  λ o.
      (finish-none_iff D cur _).1
        (none_at 0 _ _ o.index o.cur o.at_index o.known (omega (arith, o.past))),
)
