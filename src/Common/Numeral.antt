-- ===== src/Common/Numeral.antt =====
-- The language that `is_digit` accepts.
use zsr.Prelude.{ℕ, ◌+◌, ◌≤◌, ◌≡◌, ◌≢◌, ◌↔◌, ◌⊎◌, true, some, [], ◌∷◌, Bytes, length, arith}
use zsr.Libc.Text.{IsDigit}
use zsr.Common.{digit_loop, is_digit}

-- Digits, and points that have a digit behind them.
abbrev pub IsRun : Bytes → Type 0
IsRun [] = Unit
IsRun (c ∷ []) = IsDigit c
IsRun (c ∷ d ∷ s) = (IsDigit c × IsRun (d ∷ s)) ⊎ ((c ≡ b'.') × IsDigit d × IsRun s)

abbrev pub NoPointFirst : Bytes → Type 0
NoPointFirst [] = Unit
NoPointFirst (c ∷ s) = c ≢ b'.'

abbrev pub IsBody : Bytes → Type 0
IsBody s = IsRun s × NoPointFirst s

-- A run that does not begin with a point, behind an optional minus sign.
abbrev pub IsNumeral : Bytes → Type 0
IsNumeral [] = Unit
IsNumeral (c ∷ s) = IsBody (c ∷ s) ⊎ ((c ≡ b'-') × IsBody s)

digit_loop_iff :
    (len i : ℕ) (s : Bytes) → 1 ≤ i → i + length s ≤ len → (digit_loop len i s ≡ true) ↔ IsRun s
unfolding digit_loop
digit_loop_iff len i [] pos fits = ground arith
digit_loop_iff len i (c ∷ []) pos fits = ground arith
digit_loop_iff len i (c ∷ d ∷ s) pos fits = ground (
  arith,
  digit_loop_iff len (i + 1) s (omega arith) (omega arith),
  digit_loop_iff len (i + 1) (d ∷ s) (omega arith) (omega arith),
)

-- At the beginning a point is refused.
digit_loop_first : (len : ℕ) (s : Bytes) → length s ≤ len → (digit_loop len 0 s ≡ true) ↔ IsBody s
unfolding digit_loop
digit_loop_first len [] fits = ground arith
digit_loop_first len (c ∷ []) fits = ground arith
digit_loop_first len (c ∷ d ∷ s) fits =
    ground (arith, digit_loop_iff len 1 (d ∷ s) (omega arith) (omega arith))

-- `is_digit` accepts exactly the numerals of this grammar: the empty text and a lone minus sign are
-- among them, and so is a text with several points.
pub is_digit_iff : (s : Bytes) → (is_digit (some s) ≡ true) ↔ IsNumeral s
unfolding is_digit
is_digit_iff [] = ground arith
is_digit_iff (c ∷ s) =
    ground (arith, digit_loop_first (length (c ∷ s)) (c ∷ s), digit_loop_first (length (c ∷ s)) s)
