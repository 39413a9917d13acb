-- ===== src/Modules/Buffer/Loops.antt =====
-- When the loops stay in the buffer, and that the bound of `snprintf` makes no difference.
use zsr.Prelude.{
  ℕ, zero, suc, ◌+◌, ◌-◌, ◌≤◌, ◌<◌, ◌≡◌, refl, sym, ap, ◌∙◌, inl, inr, true, false, Option, none,
  some, List, [], ◌∷◌, ◌++◌, append_assoc, append-nil, Bytes, length, length-append, ltb, min, All,
  Bool-cases, if◌then◌else◌, arith,
}
use zsr.Network.{take}
use zsr.Modules.Lines.{each}
use zsr.Modules.Buffer.{len_1m, sprintf_loop, snprintf_loop}

-- The whole text, if it and its NUL fit into the buffer.
abbrev pub within : Bytes → Option Bytes
within text = if ltb (length text) len_1m then some text else none

take_all : (n : ℕ) (s : Bytes) → length s ≤ n → take n s ≡ s
take_all zero [] h = refl
take_all zero (c ∷ s) h = absurd (omega arith)
take_all (suc n) [] h = refl
take_all (suc n) (c ∷ s) h = ap (λ t. c ∷ t) (take_all n s (omega arith))

module _ {A : Type 0} (line : A → Bytes) where
  pub sprintf_loop-within :
      (text : Bytes) (xs : List A)
      → length text < len_1m
      → sprintf_loop line text xs ≡ within (text ++ each line xs)
  unfolding sprintf_loop
  sprintf_loop-within text [] h =
      let fits : ltb (length text) len_1m ≡ true = ground (arith, h) in
      rw (append-nil text, fits) refl
  sprintf_loop-within text (x ∷ xs) h =
      elim (Bool-cases (ltb (length text + length (line x)) len_1m)) [
        | inl fits ↦ rw fits (
            sprintf_loop-within (text ++ line x) xs (ground (arith, length-append text (line x)))
            ∙ ap within (append_assoc text (line x) (each line xs)))
        | inr over ↦
            let past : ltb (length (text ++ (line x ++ each line xs))) len_1m ≡ false = ground (
              arith,
              length-append text (line x ++ each line xs),
              length-append (line x) (each line xs),
            ) in
            rw (over, past) refl
      ]

  -- Where each line alone fits into the buffer, `snprintf` with LEN_1M at `record + ret` stores what
  -- `sprintf` does, and writes past the end where it does.
  snprintf_loop-sprintf_loop :
      (text : Bytes) (xs : List A)
      → All (λ x. length (line x) < len_1m) xs
      → snprintf_loop line (length text) text xs ≡ sprintf_loop line text xs
  unfolding snprintf_loop sprintf_loop
  snprintf_loop-sprintf_loop text [] h = refl
  snprintf_loop-sprintf_loop text (x ∷ xs) (short, h) =
      let whole : min (length (line x)) (len_1m - 1) ≡ length (line x) = omega arith in
      rw
        (
          whole,
          take_all (len_1m - 1) (line x) (omega arith),
          sym (length-append text (line x)),
          snprintf_loop-sprintf_loop (text ++ line x) xs h,
        )
        refl

  -- Both loops, where each line alone fits: the whole text is stored if it fits into the buffer with its
  -- NUL, and otherwise they write past the end; the size that `snprintf` is given changes nothing.
  pub loops-within :
      (xs : List A)
      → All (λ x. length (line x) < len_1m) xs
      → (sprintf_loop line [] xs ≡ within (each line xs))
        × (snprintf_loop line 0 [] xs ≡ sprintf_loop line [] xs)
  loops-within xs h = (sprintf_loop-within [] xs (omega arith), snprintf_loop-sprintf_loop [] xs h)
