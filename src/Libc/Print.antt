-- ===== src/Libc/Print.antt =====
-- `printf("%lu", n)`.
pub mod RoundTrip
pub mod Fields
pub mod Length
use zsr.Prelude.{ℕ, zero, suc, ◌+◌, ◌/◌, ◌%◌, true, false, [], ◌∷◌, ◌++◌, Bytes, ltb}

emit : ℕ → ℕ → Bytes → Bytes
emit zero n out = out
emit (suc fuel) n out = elim (ltb n 10) [
  | true ↦ (b'0' + n) ∷ out
  | false ↦ emit fuel (n / 10) ((b'0' + n % 10) ∷ out)
]

-- A round drops a digit, so `suc n` rounds are enough.
unfoldable pub print_lu : ℕ → Bytes
unfolding emit
print_lu n = emit (suc n) n []
