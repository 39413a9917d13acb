-- ===== src/Modules/Buffer/Fills.antt =====
-- The loops of record_to_str: they store the whole text where the entries are few, and write past the end
-- of the buffer where they are many.
use zsr.Prelude.{
  ℕ, ◌*◌, ◌≤◌, ◌≡◌, refl, ◌∙◌, false, none, List, [], ◌∷◌, Bytes, length, length-append, ltb, arith,
}
use native.Mathlib.Nat.{mul-le-mul_left, mul-suc}
use zsr.Double.{Double}
use zsr.Proc.{Proc}
use zsr.Io.{Io}
use zsr.Modules.Lines.{each, proc_line}
use zsr.Modules.Buffer.{len_1m, fill_proc}
use zsr.Modules.Buffer.Loops.{sprintf_loop-within}
use zsr.Modules.Buffer.Lengths.{proc_line-above}

each-above :
    {A : Type 0} (line : A → Bytes) (k : ℕ) (xs : List A)
    → ((x : A) → k ≤ length (line x))
    → k * length xs ≤ length (each line xs)
each-above line k [] f = omega arith
each-above line k (x ∷ xs) f = omega (
  arith,
  length-append (line x) (each line xs),
  each-above line k xs f,
  f x,
  mul-suc k (length xs),
)

-- Whatever the processes are, their lines have 23 bytes at least. With 45591 of them the loop of
-- mod_proc.c writes past the end of the buffer.
pub fill_proc-none : (D : Double) (ps : List (Proc D.F)) → 45591 ≤ length ps → fill_proc D ps ≡ none
unfolding fill_proc
fill_proc-none D ps many =
    let long : ltb (length (each (proc_line D) ps)) len_1m ≡ false =
      ground (arith, each-above (proc_line D) 23 ps (proc_line-above D), mul-le-mul_left 23 many) in
    sprintf_loop-within (proc_line D) [] ps (omega arith) ∙ rw long refl
