-- ===== src/Common.antt =====
-- libzsr/common.c: `is_digit`, and `print_log_l`.
pub mod Numeral
pub mod Address
use zsr.Prelude.{
  ℕ, suc, ◌+◌, Bool, true, false, ◌&&◌, ◌||◌, Option, none, some, List, [], ◌∷◌, ◌++◌, Bytes, codes,
  length, ◌==◌, if◌then◌else◌,
}
use zsr.Libc.Text.{isdigit}
use zsr.Libc.Lines.{newline}

-- The loop of `is_digit`, over the string from `s` on, with the values of `len` and `i`. A point
-- takes the byte behind it along, and the NUL there is no digit.
unfoldable pub digit_loop : ℕ → ℕ → Bytes → Bool
digit_loop len i [] = true
digit_loop len i (c ∷ []) = elim (c == b'.') [ true ↦ false | false ↦ isdigit c ]
digit_loop len i (c ∷ d ∷ s) = elim (c == b'.') [
  | true ↦ elim (i + 1 == 1 || i + 1 == len) [
    | true ↦ false
    | false ↦ elim (isdigit d) [ true ↦ digit_loop len (i + 1) s | false ↦ false ]
  ]
  | false ↦ elim (isdigit c) [ true ↦ digit_loop len (i + 1) (d ∷ s) | false ↦ false ]
]

skip_minus : Bytes → Bytes
skip_minus [] = []
skip_minus (c ∷ s) = if c == b'-' then s else c ∷ s

-- `none` is a null pointer.
unfoldable pub is_digit : Option Bytes → Bool
unfolding digit_loop skip_minus
is_digit none = false
is_digit (some s) = digit_loop (length s) 0 (skip_minus s)

-- The message that `print_log_l` hands to `print_log`, with the text of `errno`.
unfoldable pub print_log_l_message : Option Bytes → Bytes → Bytes
print_log_l_message none error = error ++ newline ∷ []
print_log_l_message (some []) error = error ++ newline ∷ []
print_log_l_message (some (c ∷ title)) error =
    (c ∷ title) ++ (codes ": " ++ (error ++ newline ∷ []))
