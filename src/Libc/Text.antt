-- ===== src/Libc/Text.antt =====
-- <ctype.h> and <string.h>.
use zsr.Prelude.{
  ℕ, ◌≤◌, ◌≡◌, refl, ◌↔◌, Bool, true, false, ◌&&◌, ◌||◌, [], ◌∷◌, ◌++◌, Bytes, leb, ◌==◌, arith,
  ==_iff,
}

-- `isdigit(c)`; the NUL at the end of a string is no digit.
abbrev pub isdigit : ℕ → Bool
isdigit c = leb b'0' c && leb c b'9'

-- `isspace(c)` in the C locale: space, \t, \n, \v, \f, \r.
abbrev pub isspace : ℕ → Bool
isspace c = c == 32 || (leb 9 c && leb c 13)

abbrev pub IsDigit : ℕ → Type 0
IsDigit c = (b'0' ≤ c) × (c ≤ b'9')

pub isdigit_iff : (c : ℕ) → (isdigit c ≡ true) ↔ IsDigit c
isdigit_iff c = ground arith

-- `strncmp(s, p, n) == 0` for a literal `p` of `n` bytes.
unfoldable pub starts_with : Bytes → Bytes → Bool
starts_with [] s = true
starts_with (p ∷ ps) [] = false
starts_with (p ∷ ps) (c ∷ s) = p == c && starts_with ps s

pub starts_with-append : (p s : Bytes) → starts_with p (p ++ s) ≡ true
unfolding starts_with
starts_with-append [] s = refl
starts_with-append (c ∷ p) s = ground (arith, starts_with-append p s, ==_iff c c)
