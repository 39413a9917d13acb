-- ===== src/Libc/Print/Fields.antt =====
-- Numbers in a row, each behind a space, and their reading by `"%lu %lu …"`.
use zsr.Prelude.{
  ℕ, ◌≤◌, ◌≡◌, refl, ◌≢◌, List, [], ◌∷◌, ◌++◌, append_assoc, Bytes, length, max_u64, All,
  All-append, arith, ap, ◌∙◌, some,
}
use zsr.Libc.Text.{IsDigit}
use zsr.Libc.Lines.{newline, NoNewline}
use zsr.Libc.Scan.{scan_lu, scan_lus}
use zsr.Libc.Print.{print_lu}
use zsr.Libc.Print.RoundTrip.{Stops, scan_lu-print_lu, scan_lu-space, All-print_lu}

abbrev pub print_fields : List ℕ → Bytes
print_fields [] = []
print_fields (n ∷ ns) = 32 ∷ (print_lu n ++ print_fields ns)

pub fields-Stops : (ns : List ℕ) (rest : Bytes) → Stops rest → Stops (print_fields ns ++ rest)
fields-Stops [] rest h = h
fields-Stops (n ∷ ns) rest h = refl

pub scan_lu-field :
    (n : ℕ) (s rest : Bytes)
    → n ≤ max_u64
    → Stops (s ++ rest)
    → scan_lu ((32 ∷ (print_lu n ++ s)) ++ rest) ≡ some (n, s ++ rest)
scan_lu-field n s rest fits stops =
    scan_lu-space ((print_lu n ++ s) ++ rest)
    ∙ ap scan_lu (append_assoc (print_lu n) s rest)
    ∙ scan_lu-print_lu n (s ++ rest) fits stops

-- As many conversions as there are numbers give the numbers.
pub scan_lus-print_fields :
    (ns : List ℕ) (rest : Bytes)
    → All (λ n. n ≤ max_u64) ns
    → Stops rest
    → scan_lus (length ns) (print_fields ns ++ rest) ≡ ns
unfolding scan_lus
scan_lus-print_fields [] rest fit stops = refl
scan_lus-print_fields (n ∷ ns) rest (f, fit) stops =
    rw (scan_lu-field n (print_fields ns) rest f (fields-Stops ns rest stops), scan_lus)
      (ap (λ t. n ∷ t) (scan_lus-print_fields ns rest fit stops))

digit-ne-newline : (c : ℕ) → IsDigit c → c ≢ newline
digit-ne-newline c d = omega arith

pub print_lu-NoNewline : (n : ℕ) → NoNewline (print_lu n)
print_lu-NoNewline n = All-print_lu (λ c. c ≢ newline) digit-ne-newline n

pub print_fields-NoNewline : (ns : List ℕ) → NoNewline (print_fields ns)
print_fields-NoNewline [] = tt
print_fields-NoNewline (n ∷ ns) = (
  omega arith,
  All-append _ (print_lu n) (print_fields ns) (print_lu-NoNewline n) (print_fields-NoNewline ns),
)
