-- ===== src/Libc/Scan.antt =====
-- `sscanf` with `%lu` and `%s`. A conversion that fails assigns nothing, nor does any behind it.
pub mod Range
pub mod Hex
use zsr.Prelude.{
  ◌&&◌, leb, ℕ, zero, suc, ◌+◌, ◌-◌, ◌*◌, List, [], ◌∷◌, Option, none, some, Bytes, ◌==◌,
  if◌then◌else◌, min, max_u64, sub64,
}
use zsr.Prelude.Signed.{ℤ, pos, negsuc}
use zsr.Libc.Text.{isdigit, isspace}

abbrev pub skip_space : Bytes → Bytes
skip_space [] = []
skip_space (c ∷ s) = if isspace c then skip_space s else c ∷ s

-- A number above ULONG_MAX is read as ULONG_MAX, as `strtoul` does.
unfoldable pub scan_digits : ℕ → Bytes → ℕ × Bytes
scan_digits n [] = (n, [])
scan_digits n (c ∷ s) =
    if isdigit c then scan_digits (min max_u64 (n * 10 + (c - b'0'))) s else (n, c ∷ s)

unfoldable pub scan_unsigned : Bytes → Option (ℕ × Bytes)
unfolding scan_digits
scan_unsigned [] = none
scan_unsigned (c ∷ s) = if isdigit c then some (scan_digits 0 (c ∷ s)) else none

-- A minus sign negates the value modulo 2 ^ 64.
negate : Option (ℕ × Bytes) → Option (ℕ × Bytes)
negate none = none
negate (some (n, s)) = some (sub64 0 n, s)

scan_signed : Bytes → Option (ℕ × Bytes)
unfolding scan_unsigned
scan_signed [] = none
scan_signed (c ∷ s) =
    if c == b'-'
    then negate (scan_unsigned s)
    else if c == b'+'
    then scan_unsigned s
    else scan_unsigned (c ∷ s)

-- `%lu`: the value, and the text behind it.
unfoldable pub scan_lu : Bytes → Option (ℕ × Bytes)
unfolding scan_signed negate sub64
scan_lu s = scan_signed (skip_space s)

abbrev value_or : ℕ → Option (ℕ × Bytes) → ℕ
value_or old none = old
value_or old (some (n, s)) = n

-- `sscanf(s, "%lu", &v)` where `v` was `old`.
unfoldable pub scan_lu_or : ℕ → Bytes → ℕ
unfolding scan_lu
scan_lu_or old s = value_or old (scan_lu s)

-- `"%lu %lu …"` with `k` conversions: the values of those that succeed.
unfoldable pub scan_lus : ℕ → Bytes → List ℕ
unfolding scan_lu
scan_lus zero s = []
scan_lus (suc k) s = elim (scan_lu s) [ none ↦ [] | some (n, r) ↦ n ∷ scan_lus k r ]

-- A hexadecimal digit, with its value.
abbrev pub hex_digit : ℕ → Option ℕ
hex_digit c =
    if isdigit c
    then some (c - b'0')
    else if leb b'a' c && leb c b'f'
    then some (c - b'a' + 10)
    else if leb b'A' c && leb c b'F'
    then some (c - b'A' + 10)
    else none

unfoldable pub scan_hex_digits : ℕ → Bytes → ℕ × Bytes
scan_hex_digits n [] = (n, [])
scan_hex_digits n (c ∷ s) = elim (hex_digit c) [
  | none ↦ (n, c ∷ s)
  | some d ↦ scan_hex_digits (min max_u64 (n * 16 + d)) s
]

-- One digit at least. The texts that are scanned have no sign and no prefix 0x.
scan_hex : Bytes → Option (ℕ × Bytes)
unfolding scan_hex_digits
scan_hex [] = none
scan_hex (c ∷ s) = elim (hex_digit c) [ none ↦ none | some d ↦ some (scan_hex_digits 0 (c ∷ s)) ]

-- `"%lx%lx…"` with `k` conversions: the values of those that succeed.
unfoldable pub scan_lxs : ℕ → Bytes → List ℕ
unfolding scan_hex
scan_lxs zero s = []
scan_lxs (suc k) s = elim (scan_hex (skip_space s)) [ none ↦ [] | some (n, r) ↦ n ∷ scan_lxs k r ]

unfoldable pub word : Bytes → Bytes × Bytes
word [] = ([], [])
word (c ∷ s) = let (w, r) = word s in if isspace c then ([], c ∷ s) else (c ∷ w, r)

unfoldable pub non_empty : Bytes × Bytes → Option (Bytes × Bytes)
non_empty ([], r) = none
non_empty (c ∷ w, r) = some (c ∷ w, r)

-- `%s`: a run of bytes that are no white space.
unfoldable pub scan_word : Bytes → Option (Bytes × Bytes)
unfolding word non_empty
scan_word s = non_empty (word (skip_space s))

decimal : ℕ → Bytes → ℕ
decimal n [] = n
decimal n (c ∷ s) = if isdigit c then decimal (n * 10 + (c - b'0')) s else n

minus : ℕ → ℤ
minus zero = pos zero
minus (suc n) = negsuc n

signed_decimal : Bytes → ℤ
unfolding decimal minus
signed_decimal [] = pos 0
signed_decimal (c ∷ s) =
    if c == b'-'
    then minus (decimal 0 s)
    else if c == b'+'
    then pos (decimal 0 s)
    else pos (decimal 0 (c ∷ s))

-- `%d`, of a number in the range of `int`.
negated : Option (ℕ × Bytes) → Option ℤ
unfolding minus
negated none = none
negated (some (n, s)) = some (minus n)

positive : Option (ℕ × Bytes) → Option ℤ
positive none = none
positive (some (n, s)) = some (pos n)

signed_number : Bytes → Option ℤ
unfolding scan_unsigned negated positive
signed_number [] = none
signed_number (c ∷ s) =
    if c == b'-'
    then negated (scan_unsigned s)
    else if c == b'+'
    then positive (scan_unsigned s)
    else positive (scan_unsigned (c ∷ s))

unfoldable pub scan_d : Bytes → Option ℤ
unfolding signed_number
scan_d s = signed_number (skip_space s)

-- `atoi`, of a number in the range of `int`.
unfoldable pub atoi : Bytes → ℤ
unfolding signed_decimal
atoi s = signed_decimal (skip_space s)
