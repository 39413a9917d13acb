-- ===== src/Libc/Scan/Range.antt =====
-- What `%lu` converts is in the range of `unsigned long`, whatever the text.
use zsr.Prelude.{
  ℕ, ◌+◌, ◌-◌, ◌*◌, ◌≤◌, inl, inr, Option, none, some, [], ◌∷◌, Bytes, min, sub64, ◌==◌, max_u64,
  Bool-cases, arith,
}
use zsr.Libc.Text.{isdigit}
use zsr.Libc.Scan.{
  scan_digits, scan_unsigned, negate, scan_signed, skip_space, scan_lu, value_or, scan_lu_or,
}

abbrev pub Ranged : Option (ℕ × Bytes) → Type 0
Ranged none = Unit
Ranged (some (n, s)) = n ≤ max_u64

scan_digits-range : (n : ℕ) (s : Bytes) → n ≤ max_u64 → (scan_digits n s).0 ≤ max_u64
unfolding scan_digits
scan_digits-range n [] h = h
scan_digits-range n (c ∷ s) h = elim (Bool-cases (isdigit c)) [
  | inl digit ↦ rw digit (scan_digits-range (min max_u64 (n * 10 + (c - b'0'))) s (omega arith))
  | inr other ↦ rw other h
]

scan_unsigned-range : (s : Bytes) → Ranged (scan_unsigned s)
unfolding scan_unsigned
scan_unsigned-range [] = tt
scan_unsigned-range (c ∷ s) = elim (Bool-cases (isdigit c)) [
  | inl digit ↦ rw digit (scan_digits-range (min max_u64 (0 + (c - b'0'))) s (omega arith))
  | inr other ↦ rw other tt
]

negate-range : (r : Option (ℕ × Bytes)) → Ranged (negate r)
unfolding negate sub64
negate-range none = tt
negate-range (some (n, s)) = omega arith

scan_signed-range : (s : Bytes) → Ranged (scan_signed s)
unfolding scan_signed
scan_signed-range [] = tt
scan_signed-range (c ∷ s) = elim (Bool-cases (c == b'-')) [
  | inl minus ↦ rw minus (negate-range (scan_unsigned s))
  | inr other ↦ elim (Bool-cases (c == b'+')) [
    | inl plus ↦ rw (other, plus) (scan_unsigned-range s)
    | inr digit ↦ rw (other, digit) (scan_unsigned-range (c ∷ s))
  ]
]

pub scan_lu-range : (s : Bytes) → Ranged (scan_lu s)
unfolding scan_lu
scan_lu-range s = scan_signed-range (skip_space s)

value_or-range :
    (old : ℕ) (r : Option (ℕ × Bytes)) → old ≤ max_u64 → Ranged r → value_or old r ≤ max_u64
value_or-range old none h g = h
value_or-range old (some (n, s)) h g = g

pub scan_lu_or-range : (old : ℕ) (s : Bytes) → old ≤ max_u64 → scan_lu_or old s ≤ max_u64
unfolding scan_lu_or
scan_lu_or-range old s h = value_or-range old (scan_lu s) h (scan_lu-range s)
