-- ===== src/Libc/Words.antt =====
-- Words between white space, and their reading by `%s`.
use zsr.Prelude.{ℕ, ◌≡◌, refl, ap, ◌∙◌, false, true, some, [], ◌∷◌, ◌++◌, Bytes, All}
use zsr.Libc.Text.{isspace}
use zsr.Libc.Scan.{skip_space, word, non_empty, scan_word}

abbrev pub IsWord : Bytes → Type 0
IsWord [] = ⊥
IsWord (c ∷ s) = All (λ b. isspace b ≡ false) (c ∷ s)

-- The text behind a word: nothing, or white space.
abbrev pub Parts : Bytes → Type 0
Parts [] = Unit
Parts (c ∷ s) = isspace c ≡ true

word-append :
    (w rest : Bytes) → All (λ b. isspace b ≡ false) w → Parts rest → word (w ++ rest) ≡ (w, rest)
unfolding word
word-append [] [] h parts = refl
word-append [] (c ∷ rest) h parts = rw parts refl
word-append (c ∷ w) rest (n, h) parts = rw (n, word-append w rest h parts) refl

skip_space-word : (c : ℕ) (s : Bytes) → isspace c ≡ false → skip_space (32 ∷ c ∷ s) ≡ c ∷ s
skip_space-word c s n = rw n refl

-- A word behind a space is read, and the reading stops right behind it.
pub scan_word-append :
    (w rest : Bytes) → IsWord w → Parts rest → scan_word (32 ∷ (w ++ rest)) ≡ some (w, rest)
unfolding scan_word
scan_word-append [] rest h parts = absurd h
scan_word-append (c ∷ w) rest (n, h) parts =
    ap (λ t. non_empty (word t)) (skip_space-word c (w ++ rest) n)
    ∙ ap non_empty (word-append (c ∷ w) rest (n, h) parts)

-- The same at the beginning of a text.
pub scan_word_first :
    (w rest : Bytes) → IsWord w → Parts rest → scan_word (w ++ rest) ≡ some (w, rest)
unfolding scan_word
scan_word_first [] rest h parts = absurd h
scan_word_first (c ∷ w) rest (n, h) parts =
    let same : skip_space (c ∷ (w ++ rest)) ≡ c ∷ (w ++ rest) = rw n refl in
    ap (λ t. non_empty (word t)) same ∙ ap non_empty (word-append (c ∷ w) rest (n, h) parts)
