-- ===== src/Libc/Print/Length.antt =====
-- How many bytes `%lu` prints.
use zsr.Prelude.{
  ℕ, zero, suc, ◌+◌, ◌*◌, ◌/◌, ◌%◌, ◌≤◌, ◌<◌, inl, inr, [], ◌∷◌, Bytes, length, ltb, max_u64,
  Bool-cases, arith,
}
use zsr.Libc.Print.{emit, print_lu}

-- 10 ^ k
abbrev tens : ℕ → ℕ
tens zero = 1
tens (suc k) = 10 * tens k

emit-length :
    (k f n : ℕ) (out : Bytes) → n < tens (suc k) → length (emit f n out) ≤ suc k + length out
unfolding emit
emit-length k zero n out h = omega arith
emit-length zero (suc f) n out h = ground arith
emit-length (suc k) (suc f) n out h = elim (Bool-cases (ltb n 10)) [
  | inl small ↦ rw (small, emit) (omega arith)
  | inr big ↦
      rw (big, emit) (omega (arith, emit-length k f (n / 10) ((b'0' + n % 10) ∷ out) (omega arith)))
]

pub print_lu-length : (n : ℕ) → n ≤ max_u64 → length (print_lu n) ≤ 20
unfolding print_lu
print_lu-length n h = emit-length 19 (suc n) n [] (omega arith)

emit-above : (f n : ℕ) (out : Bytes) → length out ≤ length (emit f n out)
unfolding emit
emit-above zero n out = omega arith
emit-above (suc f) n out = elim (Bool-cases (ltb n 10)) [
  | inl small ↦ rw (small, emit) (omega arith)
  | inr big ↦ rw (big, emit) (omega (arith, emit-above f (n / 10) ((b'0' + n % 10) ∷ out)))
]

pub print_lu-some : (n : ℕ) → 1 ≤ length (print_lu n)
unfolding print_lu emit
print_lu-some n = elim (Bool-cases (ltb n 10)) [
  | inl small ↦ rw (small, emit) (omega arith)
  | inr big ↦ rw (big, emit) (emit-above n (n / 10) ((b'0' + n % 10) ∷ []))
]
