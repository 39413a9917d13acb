-- ===== src/Cpu/Count/Largest.antt =====
-- `get_num_of_cpu` finds the largest number of a processor.
use zsr.Prelude.{
  ℕ, zero, suc, ◌<◌, ◌≤◌, ◌≡◌, ◌⊎◌, refl, inl, inr, ap, ◌∙◌, true, false, Bool-cases, some, List,
  [], ◌∷◌, Option, Bytes, drop, All, arith, ltb,
}
use zsr.Prelude.Signed.{ℤ, pos, negsuc}
use zsr.Libc.Lines.{lines}
use zsr.Libc.Scan.{scan_d}
use zsr.Cpu.Count.{
  is_cpu_line, larger, assigned, count_lines, counted, next_uint, returned, get_num_of_cpu,
}

-- The line of processor `k`.
abbrev pub HasNumber : Bytes → ℕ → Type 0
HasNumber line k = (is_cpu_line line ≡ true) × (scan_d (drop 3 line) ≡ some (pos k))

-- One of the lines is that of processor `k`.
abbrev pub Lists : List Bytes → ℕ → Type 0
Lists [] k = ⊥
Lists (line ∷ bufs) k = HasNumber line k ⊎ Lists bufs k

-- The line is not that of one processor, or it has a number.
abbrev pub IsNumbered : Bytes → Type 0
IsNumbered line = (is_cpu_line line ≡ false) ⊎ ((k : ℕ) × HasNumber line k)

-- `n` is above all numbers of the lines, and, unless it is `least`, just above one of them.
abbrev pub IsAbove : List Bytes → ℕ → ℕ → Type 0
IsAbove bufs least n =
    (least ≤ n)
    × ((k : ℕ) → Lists bufs k → k < n)
    × ((n ≡ least) ⊎ ((k : ℕ) × Lists bufs k × (n ≡ suc k)))

-- The number below `n`, from -1 on.
below : ℕ → ℤ
below zero = negsuc 0
below (suc n) = pos n

max_next : ℕ → ℕ → ℕ
max_next a k = elim (ltb k a) [ true ↦ a | false ↦ suc k ]

larger-below : (a k : ℕ) → larger (below a) (some (pos k)) ≡ some (below (max_next a k))
unfolding larger below max_next
larger-below zero k = ground arith
larger-below (suc a) k = ground arith

count_lines-other :
    (line : Bytes) (bufs : List Bytes) (old : Option ℤ) (m : ℤ)
    → is_cpu_line line ≡ false
    → count_lines (line ∷ bufs) old m ≡ count_lines bufs old m
unfolding count_lines
count_lines-other line bufs old m h = rw (h, count_lines) refl

count_lines-number :
    (line : Bytes) (bufs : List Bytes) (old : Option ℤ) (a k : ℕ)
    → HasNumber line k
    → count_lines (line ∷ bufs) old (below a)
      ≡ count_lines bufs (some (pos k)) (below (max_next a k))
unfolding count_lines
count_lines-number line bufs old a k (is_cpu, number) =
    rw (is_cpu, number, larger-below a k, count_lines)
      (ap (λ n. count_lines bufs (assigned old n) (below (max_next a k))) number)

max_next_bounds :
    (a k : ℕ)
    → (a ≤ max_next a k) × (k < max_next a k) × ((max_next a k ≡ a) ⊎ (max_next a k ≡ suc k))
unfolding max_next
max_next_bounds a k = elim (Bool-cases (ltb k a)) [
  | inl lt ↦ rw (lt, max_next) (omega arith, ground arith, inl refl)
  | inr ge ↦ rw (ge, max_next) (ground arith, omega arith, inr refl)
]

IsAbove-other :
    (line : Bytes) (bufs : List Bytes) (a n : ℕ)
    → is_cpu_line line ≡ false
    → IsAbove bufs a n
    → IsAbove (line ∷ bufs) a n
IsAbove-other line bufs a n other (le, all, found) = (
  le,
  λ k h. elim h [ inl here ↦ cc (here.0) | inr there ↦ all k there ],
  elim found [ inl e ↦ inl e | inr (k, at, e) ↦ inr (k, inr at, e) ],
)

IsAbove-number :
    (line : Bytes) (bufs : List Bytes) (a k n : ℕ)
    → HasNumber line k
    → IsAbove bufs (max_next a k) n
    → IsAbove (line ∷ bufs) a n
IsAbove-number line bufs a k n number (le, all, found) =
    let (more, above, max) = max_next_bounds a k in
    (
      omega arith,
      λ j h. elim h [
        | inl here ↦ (let e : j ≡ k = cc (here.1, number.1) in omega (arith, e))
        | inr there ↦ all j there
      ],
      elim found [
        | inl e ↦ elim max [ inl e' ↦ inl (e ∙ e') | inr e' ↦ inr (k, inl number, e ∙ e') ]
        | inr (j, at, e) ↦ inr (j, inr at, e)
      ],
    )

count_lines-IsAbove :
    (bufs : List Bytes) (old : Option ℤ) (a : ℕ)
    → All IsNumbered bufs
    → (n : ℕ) × (count_lines bufs old (below a) ≡ some (below n)) × IsAbove bufs a n
count_lines-IsAbove [] old a h =
    (a, unfold count_lines in refl, (omega arith, λ k e. absurd e, inl refl))
count_lines-IsAbove (line ∷ bufs) old a (inl other, h) =
    let (n, e, above) = count_lines-IsAbove bufs old a h in
    (
      n,
      count_lines-other line bufs old (below a) other ∙ e,
      IsAbove-other line bufs a n other above,
    )
count_lines-IsAbove (line ∷ bufs) old a (inr (k, number), h) =
    let (n, e, above) = count_lines-IsAbove bufs (some (pos k)) (max_next a k) h in
    (
      n,
      count_lines-number line bufs old a k number ∙ e,
      IsAbove-number line bufs a k n number above,
    )

next_uint-below : (n : ℕ) → next_uint (below n) ≡ n
unfolding below
next_uint-below zero = refl
next_uint-below (suc n) = omega arith

-- Where every line of one processor, as the buffer of 16 bytes cuts it, has a number, the function
-- returns the number of processors: it is above the number of each listed processor, and it is 0 only
-- if none is listed, and otherwise the successor of a listed number.
pub get_num_of_cpu-IsAbove :
    (text error : Bytes)
    → All IsNumbered (lines 16 text)
    → (n : ℕ) × (get_num_of_cpu (some text) error ≡ returned n) × IsAbove (lines 16 text) 0 n
unfolding get_num_of_cpu below
get_num_of_cpu-IsAbove text error h =
    let (n, e, above) = count_lines-IsAbove (lines 16 text) _ 0 h in
    (n, ap counted e ∙ ap returned (next_uint-below n), above)
