-- ===== src/Libc/Tokens.antt =====
-- `strtok(s, " ")`, called until it returns NULL: the runs of bytes that are no spaces.
use zsr.Prelude.{
  ℕ, ◌≡◌, ◌≢◌, refl, ap, ◌∙◌, List, [], ◌∷◌, ◌++◌, append_assoc, Bytes, All, ◌==◌, if◌then◌else◌,
  arith,
}

extend : ℕ → List Bytes → List Bytes
extend c [] = (c ∷ []) ∷ []
extend c (t ∷ ts) = (c ∷ t) ∷ ts

-- The byte `c` in front of `s`, whose tokens are `ts`.
glue : ℕ → Bytes → List Bytes → List Bytes
unfolding extend
glue c [] ts = (c ∷ []) ∷ []
glue c (d ∷ s) ts = if d == 32 then (c ∷ []) ∷ ts else extend c ts

unfoldable pub tokens : Bytes → List Bytes
unfolding glue
tokens [] = []
tokens (c ∷ s) = let ts = tokens s in if c == 32 then ts else glue c s ts

-- A token: not empty, and with no space.
abbrev pub IsToken : Bytes → Type 0
IsToken [] = ⊥
IsToken (c ∷ s) = All (λ b. b ≢ 32) (c ∷ s)

-- Tokens, each with a space behind it.
abbrev pub join_tokens : List Bytes → Bytes
join_tokens [] = []
join_tokens (t ∷ ts) = t ++ 32 ∷ join_tokens ts

tokens-append : (t s : Bytes) → IsToken t → tokens (t ++ 32 ∷ s) ≡ t ∷ tokens s
unfolding tokens
tokens-append [] s h = absurd h
tokens-append (c ∷ []) s h = ground arith
tokens-append (c ∷ d ∷ t) s (n, h) = ground (arith, tokens-append (d ∷ t) s h)

pub tokens-join_tokens :
    (ts : List Bytes) (s : Bytes) → All IsToken ts → tokens (join_tokens ts ++ s) ≡ ts ++ tokens s
tokens-join_tokens [] s h = refl
tokens-join_tokens (t ∷ ts) s (f, h) =
    ap tokens (append_assoc t (32 ∷ join_tokens ts) s)
    ∙ tokens-append t (join_tokens ts ++ s) f
    ∙ ap (λ k. t ∷ k) (tokens-join_tokens ts s h)
