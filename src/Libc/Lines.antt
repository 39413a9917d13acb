-- ===== src/Libc/Lines.antt =====
-- `while (fgets(buf, n, fp))`: the buffers that the calls fill, in order. A file is its bytes, none
-- of them NUL.
use zsr.Prelude.{
  map, append_assoc, ◌∙◌, ◌+◌, ℕ, zero, suc, ◌+◌, ◌≤◌, ◌≡◌, ◌≢◌, refl, ap, true, false, List, [],
  ◌∷◌, ◌++◌, append_assoc, Bytes, length, All, ◌==◌, ==_iff, arith, Option, none, some,
}

abbrev pub newline : ℕ
newline = 10

-- One call: at most `room` bytes, up to and with the first newline; and the rest of the file.
unfoldable pub read_line : ℕ → Bytes → Bytes × Bytes
read_line zero s = ([], s)
read_line (suc room) [] = ([], [])
read_line (suc room) (c ∷ s) = elim (c == newline) [
  | true ↦ (c ∷ [], s)
  | false ↦ let (l, r) = read_line room s in (c ∷ l, r)
]

-- `fgets(buf, size, fp)`: NULL at the end of the file.
unfoldable pub fgets : ℕ → Bytes → Option (Bytes × Bytes)
unfolding read_line
fgets zero s = none
fgets (suc room) [] = none
fgets (suc room) (c ∷ s) = some (read_line room (c ∷ s))

-- All the calls. Each takes a byte at least, so the length of the file is fuel enough.
read_lines : ℕ → ℕ → Bytes → List Bytes
read_lines zero size s = []
read_lines (suc fuel) size s = elim (fgets size s) [
  | none ↦ []
  | some (l, r) ↦ l ∷ read_lines fuel size r
]

unfoldable pub lines : ℕ → Bytes → List Bytes
unfolding read_lines fgets
lines size s = read_lines (length s) size s

abbrev pub NoNewline : Bytes → Type 0
NoNewline = All (λ c. c ≢ newline)

read_line-length : (room : ℕ) (s : Bytes) → length (read_line room s).1 ≤ length s
unfolding read_line
read_line-length zero s = omega arith
read_line-length (suc room) [] = omega arith
read_line-length (suc room) (c ∷ s) = ground (arith, read_line-length room s)

read_line-lt : (room : ℕ) (c : ℕ) (s : Bytes) → length (read_line (suc room) (c ∷ s)).1 ≤ length s
unfolding read_line
read_line-lt room c s = ground (arith, read_line-length room s)

-- More fuel than the length changes nothing.
read_lines_enough :
    (f g room : ℕ) (s : Bytes)
    → length s ≤ f
    → length s ≤ g
    → read_lines f (suc (suc room)) s ≡ read_lines g (suc (suc room)) s
unfolding read_lines fgets
read_lines_enough zero zero room s hf hg = refl
read_lines_enough zero (suc g) room [] hf hg = refl
read_lines_enough zero (suc g) room (c ∷ s) hf hg = absurd (omega arith)
read_lines_enough (suc f) zero room [] hf hg = refl
read_lines_enough (suc f) zero room (c ∷ s) hf hg = absurd (omega arith)
read_lines_enough (suc f) (suc g) room [] hf hg = refl
read_lines_enough (suc f) (suc g) room (c ∷ s) hf hg =
    let short = read_line-lt room c s in
    ap (λ t. (read_line (suc room) (c ∷ s)).0 ∷ t)
      (read_lines_enough f g room (read_line (suc room) (c ∷ s)).1 (omega (arith, short))
        (omega (arith, short)))

read_line-append :
    (room : ℕ) (l rest : Bytes)
    → NoNewline l
    → length l ≤ room
    → read_line (suc room) (l ++ newline ∷ rest) ≡ (l ++ newline ∷ [], rest)
unfolding read_line
read_line-append room [] rest clean fits = refl
read_line-append zero (c ∷ l) rest clean fits = absurd (omega arith)
read_line-append (suc room) (c ∷ l) rest (ne, clean) fits =
    ground (arith, ==_iff c newline, read_line-append room l rest clean (omega arith))

pub fgets-line :
    (room : ℕ) (l rest : Bytes)
    → NoNewline l
    → length l ≤ room
    → fgets (suc (suc room)) (l ++ newline ∷ rest) ≡ some (l ++ newline ∷ [], rest)
unfolding fgets
fgets-line room [] rest clean fits = ap some (read_line-append room [] rest clean fits)
fgets-line room (c ∷ l) rest clean fits = ap some (read_line-append room (c ∷ l) rest clean fits)

-- `lines` is the loop over `fgets`.
pub lines-cons :
    (room c : ℕ) (s : Bytes)
    → lines (suc (suc room)) (c ∷ s)
      ≡ (read_line (suc room) (c ∷ s)).0 ∷ lines (suc (suc room)) (read_line (suc room) (c ∷ s)).1
unfolding lines
lines-cons room c s =
    ap (λ t. (read_line (suc room) (c ∷ s)).0 ∷ t)
      (read_lines_enough (length s) _ room _ (read_line-lt room c s) (omega arith))

lines-step :
    (room : ℕ) (s l rest : Bytes)
    → s ≢ []
    → read_line (suc room) s ≡ (l, rest)
    → lines (suc (suc room)) s ≡ l ∷ lines (suc (suc room)) rest
lines-step room [] l rest ne h = absurd (ne refl)
lines-step room (c ∷ s) l rest ne h = rw (lines-cons, h) refl

line-ne-nil : (l rest : Bytes) → l ++ newline ∷ rest ≢ []
line-ne-nil [] rest = cc
line-ne-nil (c ∷ l) rest = cc

-- A line that fits into the buffer with its newline and the NUL is one buffer.
pub lines-line :
    (room : ℕ) (l rest : Bytes)
    → NoNewline l
    → length l ≤ room
    → lines (suc (suc room)) (l ++ newline ∷ rest)
      ≡ (l ++ newline ∷ []) ∷ lines (suc (suc room)) rest
lines-line room l rest clean fits =
    lines-step room _ _ _ (line-ne-nil l rest) (read_line-append room l rest clean fits)

-- Lines, each with its newline.
abbrev pub join_lines : List Bytes → Bytes
join_lines [] = []
join_lines (l ∷ ls) = l ++ newline ∷ join_lines ls

-- A line of a text that fits a buffer of `n` bytes.
pub record FitsBuffer (n : ℕ) (l : Bytes) : Type 0 where
  pub clean : NoNewline l
  pub short : length l + 2 ≤ n

-- A text of lines that fit is read line by line.
pub lines-join_lines :
    (n : ℕ) (ls : List Bytes) (rest : Bytes)
    → All (FitsBuffer (suc (suc n))) ls
    → lines (suc (suc n)) (join_lines ls ++ rest)
      ≡ map (λ l. l ++ newline ∷ []) ls ++ lines (suc (suc n)) rest
lines-join_lines n [] rest h = refl
lines-join_lines n (l ∷ ls) rest (f, h) =
    ap (lines (suc (suc n))) (append_assoc l (newline ∷ join_lines ls) rest)
    ∙ lines-line n l (join_lines ls ++ rest) f.clean (omega (arith, f.short))
    ∙ ap (λ t. (l ++ newline ∷ []) ∷ t) (lines-join_lines n ls rest h)
