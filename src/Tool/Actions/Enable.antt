-- ===== src/Tool/Actions/Enable.antt =====
-- Which modules an option enables, and which records are printed.
use zsr.Prelude.{
  ◌≡◌, ◌≢◌, refl, true, none, some, List, [], ◌∷◌, ◌++◌, Bytes, codes, same_text_iff, All, arith,
}
use zsr.Framework.{Module}
use zsr.Tool.Actions.{print_err, returned, exited, enable_first, invalid_option, enable_module}

module _ {S R : Type 0} where
  enable_first-found :
      (before : List (Module S R)) (m : Module S R) (after : List (Module S R))
      → All (λ (x : Module S R). x.opt_line ≢ m.opt_line) before
      → enable_first m.opt_line (before ++ m ∷ after)
        ≡ some (before ++ record m { enable = true } ∷ after)
  unfolding enable_first
  enable_first-found [] m after h = ground (arith, same_text_iff m.opt_line m.opt_line)
  enable_first-found (x ∷ before) m after (ne, h) =
      ground (arith, same_text_iff x.opt_line m.opt_line, enable_first-found before m after h)

  enable_first-missing :
      (mod_opt : Bytes) (ms : List (Module S R))
      → All (λ (x : Module S R). x.opt_line ≢ mod_opt) ms
      → enable_first mod_opt ms ≡ none
  unfolding enable_first
  enable_first-missing mod_opt [] h = refl
  enable_first-missing mod_opt (x ∷ ms) (ne, h) =
      ground (arith, same_text_iff x.opt_line mod_opt, enable_first-missing mod_opt ms h)

  -- The option of a module enables the first module that has it, changes no other, and prints nothing.
  enable_module-found :
      (before : List (Module S R)) (m : Module S R) (after : List (Module S R))
      → All (λ (x : Module S R). x.opt_line ≢ m.opt_line) before
      → enable_module m.opt_line (before ++ m ∷ after)
        ≡ returned (before ++ record m { enable = true } ∷ after) []
  unfolding enable_module
  enable_module-found before m after h = rw (enable_first-found before m after h) refl

  -- An option of no module ends the process with a message.
  pub enable_module-missing :
      (mod_opt : Bytes) (ms : List (Module S R))
      → All (λ (x : Module S R). x.opt_line ≢ mod_opt) ms
      → enable_module mod_opt ms
        ≡ exited (print_err (codes "Invalid module option: " ++ (mod_opt ++ codes "\n")) ∷ [])
  unfolding enable_module invalid_option
  enable_module-missing mod_opt ms h = rw (enable_first-missing mod_opt ms h) refl
