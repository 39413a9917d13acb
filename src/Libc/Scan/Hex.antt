-- ===== src/Libc/Scan/Hex.antt =====
-- `%lx` reads a number from its hexadecimal digits.
use zsr.Prelude.{
  ℕ, suc, ◌+◌, ◌-◌, ◌*◌, ◌≤◌, ◌<◌, ◌≡◌, refl, ap, ◌∙◌, none, some, List, [], ◌∷◌, ◌++◌, Bytes, ltb,
  min, max_u64, map, All, if◌then◌else◌, arith,
}
use zsr.Libc.Scan.{skip_space, hex_digit, scan_hex_digits, scan_hex, scan_lxs}

abbrev pub hex_char : ℕ → ℕ
hex_char d = if ltb d 10 then b'0' + d else b'A' + (d - 10)

abbrev pub hex_text : List ℕ → Bytes
hex_text ds = map hex_char ds

abbrev pub hex_value : ℕ → List ℕ → ℕ
hex_value n [] = n
hex_value n (d ∷ ds) = hex_value (n * 16 + d) ds

-- The digits of a number that a uint64_t holds.
abbrev pub IsNumber : List ℕ → Type 0
IsNumber [] = ⊥
IsNumber (d ∷ ds) = All (λ e. e < 16) (d ∷ ds) × (hex_value 0 (d ∷ ds) ≤ max_u64)

-- The text behind a number.
abbrev pub NoHex : Bytes → Type 0
NoHex [] = Unit
NoHex (c ∷ s) = hex_digit c ≡ none

hex_digit-char : (d : ℕ) → d < 16 → hex_digit (hex_char d) ≡ some d
hex_digit-char d h = ground arith

hex_value-le : (n : ℕ) (ds : List ℕ) → n ≤ hex_value n ds
hex_value-le n [] = omega arith
hex_value-le n (d ∷ ds) = omega (arith, hex_value-le (n * 16 + d) ds)

scan_hex_digits-digit :
    (n c d : ℕ) (s : Bytes)
    → hex_digit c ≡ some d
    → n * 16 + d ≤ max_u64
    → scan_hex_digits n (c ∷ s) ≡ scan_hex_digits (n * 16 + d) s
unfolding scan_hex_digits
scan_hex_digits-digit n c d s h fits =
    let whole : min max_u64 (n * 16 + d) ≡ n * 16 + d = omega arith in
    rw (h, scan_hex_digits, whole) refl

scan_hex_digits-text :
    (n : ℕ) (ds : List ℕ) (rest : Bytes)
    → All (λ e. e < 16) ds
    → hex_value n ds ≤ max_u64
    → NoHex rest
    → scan_hex_digits n (hex_text ds ++ rest) ≡ (hex_value n ds, rest)
unfolding scan_hex_digits
scan_hex_digits-text n [] [] h fits stops = refl
scan_hex_digits-text n [] (c ∷ s) h fits stops = rw (stops, scan_hex_digits) refl
scan_hex_digits-text n (d ∷ ds) rest (small, h) fits stops =
    scan_hex_digits-digit n (hex_char d) d (hex_text ds ++ rest) (hex_digit-char d small)
      (omega (arith, hex_value-le (n * 16 + d) ds))
    ∙ scan_hex_digits-text (n * 16 + d) ds rest h fits stops

skip_space-tab : (d : ℕ) (s : Bytes) → d < 16 → skip_space (9 ∷ hex_char d ∷ s) ≡ hex_char d ∷ s
skip_space-tab d s h = ground arith

scan_hex-text :
    (ds : List ℕ) (rest : Bytes)
    → IsNumber ds
    → NoHex rest
    → scan_hex (skip_space (9 ∷ (hex_text ds ++ rest))) ≡ some (hex_value 0 ds, rest)
unfolding scan_hex
scan_hex-text [] rest h stops = absurd h
scan_hex-text (d ∷ ds) rest ((small, h), fits) stops =
    let first : scan_hex (hex_text (d ∷ ds) ++ rest)
        ≡ some (scan_hex_digits 0 (hex_text (d ∷ ds) ++ rest)) =
      rw (hex_digit-char d small, scan_hex) refl in
    ap scan_hex (skip_space-tab d (hex_text ds ++ rest) small)
    ∙ first
    ∙ ap some (scan_hex_digits-text 0 (d ∷ ds) rest (small, h) fits stops)

-- A number behind a tab is read, and the reading goes on right behind it.
pub scan_lxs-text :
    (k : ℕ) (ds : List ℕ) (rest : Bytes)
    → IsNumber ds
    → NoHex rest
    → scan_lxs (suc k) (9 ∷ (hex_text ds ++ rest)) ≡ hex_value 0 ds ∷ scan_lxs k rest
unfolding scan_lxs
scan_lxs-text k ds rest h stops = rw (scan_hex-text ds rest h stops, scan_lxs) refl
