-- ===== src/Libc/Print/RoundTrip.antt =====
-- What `%lu` prints, `%lu` reads back.
use zsr.Prelude.{
  ℕ, zero, suc, ◌+◌, ◌*◌, ◌/◌, ◌%◌, ◌≤◌, ◌<◌, ◌≡◌, refl, ◌∙◌, ap, false, [], ◌∷◌, ◌++◌, some, Bytes,
  ltb, max_u64, arith, inl, inr, All, Bool-cases,
}
use zsr.Libc.Text.{isdigit, IsDigit}
use zsr.Libc.Scan.{scan_digits, scan_unsigned, scan_lu, scan_lu_or}
use zsr.Libc.Print.{emit, print_lu}

-- The text behind a number: nothing, or a byte that is no digit.
abbrev pub Stops : Bytes → Type 0
Stops [] = Unit
Stops (c ∷ s) = isdigit c ≡ false

emit-append : (f n : ℕ) (out rest : Bytes) → emit f n out ++ rest ≡ emit f n (out ++ rest)
unfolding emit
emit-append zero n out rest = refl
emit-append (suc f) n out rest = ground (arith, emit-append f (n / 10) ((b'0' + n % 10) ∷ out) rest)

scan_digits-digit :
    (a d : ℕ) (s : Bytes)
    → d < 10
    → a * 10 + d ≤ max_u64
    → scan_digits a ((b'0' + d) ∷ s) ≡ scan_digits (a * 10 + d) s
unfolding scan_digits
scan_digits-digit a d s h fits = ground arith

last_digit :
    (n : ℕ) (out : Bytes)
    → n ≤ max_u64
    → scan_digits (n / 10) ((b'0' + n % 10) ∷ out) ≡ scan_digits n out
last_digit n out fits =
    scan_digits-digit (n / 10) (n % 10) out (omega arith) (omega arith)
    ∙ ap (λ k. scan_digits k out) (omega arith)

scan_digits-emit :
    (f n : ℕ) (out : Bytes) → n < f → n ≤ max_u64 → scan_digits 0 (emit f n out) ≡ scan_digits n out
unfolding emit
scan_digits-emit zero n out h fits = absurd (omega arith)
scan_digits-emit (suc f) n out h fits = elim (Bool-cases (ltb n 10)) [
  | inl small ↦
      rw (small, emit)
        (scan_digits-digit 0 n out (ground arith) (ground arith)
          ∙ ap (λ k. scan_digits k out) (omega arith))
  | inr big ↦
      rw (big, emit)
        (scan_digits-emit f (n / 10) ((b'0' + n % 10) ∷ out) (ground arith) (omega arith)
          ∙ last_digit n out fits)
]

scan_digits-Stops : (n : ℕ) (rest : Bytes) → Stops rest → scan_digits n rest ≡ (n, rest)
unfolding scan_digits
scan_digits-Stops n [] h = refl
scan_digits-Stops n (c ∷ s) h = rw h

-- The first byte printed is a digit.
emit-IsDigit :
    (f n : ℕ) (out : Bytes) → n < f → (c : ℕ) × (s : Bytes) × (emit f n out ≡ c ∷ s) × IsDigit c
unfolding emit
emit-IsDigit zero n out h = absurd (omega arith)
emit-IsDigit (suc f) n out h = elim (Bool-cases (ltb n 10)) [
  | inl small ↦ (b'0' + n, out, rw (small, emit) refl, ground arith)
  | inr big ↦
      let (c, s, e, d) = emit-IsDigit f (n / 10) ((b'0' + n % 10) ∷ out) (ground arith) in
      (c, s, rw (big, emit) e, d)
]

scan_lu_first : (c : ℕ) (s t : Bytes) → IsDigit c → t ≡ c ∷ s → scan_lu t ≡ some (scan_digits 0 t)
unfolding scan_lu scan_unsigned
scan_lu_first c s t d e = rw e (ground arith)

-- `sscanf("%lu")` gives back what `printf("%lu")` wrote, and stops right behind it.
pub scan_lu-print_lu :
    (n : ℕ) (rest : Bytes)
    → n ≤ max_u64
    → Stops rest
    → scan_lu (print_lu n ++ rest) ≡ some (n, rest)
unfolding print_lu
scan_lu-print_lu n rest fits stops =
    let (c, s, e, d) = emit-IsDigit (suc n) n rest (omega arith) in
    rw
      (
        emit-append (suc n) n [] rest,
        scan_lu_first c s _ d e,
        scan_digits-emit (suc n) n rest (omega arith) fits,
        scan_digits-Stops n rest stops,
      )
      refl

pub scan_lu_or-print_lu :
    (old n : ℕ) (rest : Bytes) → n ≤ max_u64 → Stops rest → scan_lu_or old (print_lu n ++ rest) ≡ n
unfolding scan_lu_or
scan_lu_or-print_lu old n rest fits stops = rw (scan_lu-print_lu n rest fits stops) refl

-- White space in front is skipped.
pub scan_lu-space : (s : Bytes) → scan_lu (32 ∷ s) ≡ scan_lu s
unfolding scan_lu
scan_lu-space s = refl

pub scan_lu-tab : (s : Bytes) → scan_lu (9 ∷ s) ≡ scan_lu s
unfolding scan_lu
scan_lu-tab s = refl

All-emit :
    (P : ℕ → Type 0) (every : (c : ℕ) → IsDigit c → P c) (f n : ℕ) (out : Bytes)
    → All P out
    → All P (emit f n out)
unfolding emit
All-emit P every zero n out h = h
All-emit P every (suc f) n out h = elim (Bool-cases (ltb n 10)) [
  | inl small ↦ rw (small, emit) (every (b'0' + n) (ground arith), h)
  | inr big ↦
      rw (big, emit)
        (All-emit P every f (n / 10) ((b'0' + n % 10) ∷ out)
          (every (b'0' + n % 10) (omega arith), h))
]

-- What holds of every digit holds of every byte printed.
pub All-print_lu : (P : ℕ → Type 0) → ((c : ℕ) → IsDigit c → P c) → (n : ℕ) → All P (print_lu n)
unfolding print_lu
All-print_lu P every n = All-emit P every (suc n) n [] tt

-- A number below 100 as "%02lu" prints it.
abbrev pub two_digits : ℕ → Bytes
two_digits n = (b'0' + n / 10) ∷ (b'0' + n % 10) ∷ []

-- A number of two digits is read as it is, a leading zero too.
pub scan_lu-two_digits :
    (n : ℕ) (rest : Bytes) → n < 100 → Stops rest → scan_lu (two_digits n ++ rest) ≡ some (n, rest)
scan_lu-two_digits n rest h stops =
    scan_lu_first (b'0' + n / 10) ((b'0' + n % 10) ∷ rest) _ (omega arith, omega arith) refl
    ∙ ap some (
        scan_digits-digit 0 (n / 10) ((b'0' + n % 10) ∷ rest) (omega arith) (omega arith)
        ∙ ap (λ k. scan_digits k ((b'0' + n % 10) ∷ rest)) (omega arith)
        ∙ last_digit n rest (omega arith)
        ∙ scan_digits-Stops n rest stops)
