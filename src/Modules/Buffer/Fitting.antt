-- ===== src/Modules/Buffer/Fitting.antt =====
-- A text that a handler leaves in its buffer fits, with its NUL, if its lines are short and few.
use zsr.Prelude.{
  ℕ, ◌*◌, ◌≤◌, ◌<◌, Option, none, some, List, [], ◌∷◌, Bytes, length, get_last?, All, arith,
}
use native.Mathlib.Nat.{mul-le-mul_left}
use zsr.Tool.Actions.{new_text}
use zsr.Modules.Print.{of_last}
use zsr.Modules.Lines.{of_all}
use zsr.Modules.Buffer.{len_1m}
use zsr.Modules.Buffer.Lengths.{each-length}
use zsr.Modules.Buffer.Counts.{AtMost}
use zsr.Modules.Sized.Answers.{OfSome}

-- A text that fits into a record buffer with its NUL.
abbrev pub InBuffer : Bytes → Type 0
InBuffer text = length text < len_1m

pub All-weaken :
    {A : Type 0} (P Q : A → Type 0) (xs : List A) → ((x : A) → P x → Q x) → All P xs → All Q xs
All-weaken P Q [] f h = tt
All-weaken P Q (x ∷ xs) f (h, hs) = (f x h, All-weaken P Q xs f hs)

pub get_last?-OfSome :
    {A : Type 0} (P : A → Type 0) (xs : List A) → All P xs → OfSome P (get_last? xs)
get_last?-OfSome P [] h = tt
get_last?-OfSome P (x ∷ []) (h, hs) = h
get_last?-OfSome P (x ∷ y ∷ xs) (h, hs) = get_last?-OfSome P (y ∷ xs) hs

pub of_last-InBuffer :
    {A : Type 0} (P : A → Type 0) (str : A → Bytes) (o : Option A) (old : Bytes)
    → ((x : A) → P x → InBuffer (str x))
    → OfSome P o
    → InBuffer old
    → InBuffer (new_text (of_last str o) old)
unfolding new_text
of_last-InBuffer P str none old f h g = g
of_last-InBuffer P str (some x) old f h g = f x h

pub of_all-InBuffer :
    {A : Type 0} (P : A → Type 0) (line : A → Bytes) (k n : ℕ) (xs : List A) (old : Bytes)
    → ((x : A) → P x → length (line x) ≤ k)
    → All P xs
    → AtMost n xs
    → k * n < len_1m
    → InBuffer old
    → InBuffer (new_text (of_all line xs) old)
unfolding new_text
of_all-InBuffer P line k n [] old f h few fits g = g
of_all-InBuffer P line k n (x ∷ xs) old f h few fits g = omega (
  arith,
  each-length line k (x ∷ xs) (All-weaken P (λ y. length (line y) ≤ k) (x ∷ xs) f h),
  mul-le-mul_left k few,
)
