-- ===== src/Tool/Actions.antt =====
-- The functions of zsr/tool_zsr.c over the list of modules. The standard streams are a list of effects.
pub mod Enable
use zsr.Prelude.{
  ℕ, ◌+◌, Bool, true, false, ◌||◌, Option, none, some, List, [], ◌∷◌, ◌++◌, Bytes, codes, same_text,
  ◌==◌, if◌then◌else◌,
}
use zsr.Libc.Text.{starts_with}
use zsr.Framework.{Handlers, Module}

pub data Effect : Type 0 where
  print_out : Bytes → Effect
  print_err : Bytes → Effect
  sleep : ℕ → Effect

-- What a function of the tool does: it returns, or it ends the process.
pub data Outcome {ℓ} (A : Type ℓ) : Type ℓ where
  returned : A → List Effect → Outcome A
  exited : List Effect → Outcome A

abbrev pub behind {ℓ} : {A : Type ℓ} → List Effect → Outcome A → Outcome A
behind es (returned a fs) = returned a (es ++ fs)
behind es (exited fs) = exited (es ++ fs)

infixl 5 ◌>>=◌ ◌>>◌
abbrev pub ◌>>=◌ {ℓ κ} : {A : Type ℓ} {B : Type κ} → Outcome A → (A → Outcome B) → Outcome B
returned a es >>= f = behind es (f a)
exited es >>= f = exited es

abbrev pub ◌>>◌ {ℓ} : {B : Type ℓ} → Outcome (Unit {0}) → Outcome B → Outcome B
m >> k = m >>= λ _. k

-- `strstr(s, "--") != NULL`.
unfoldable pub has_dashes : Bytes → Bool
unfolding starts_with
has_dashes [] = false
has_dashes (c ∷ s) = starts_with (codes "--") (c ∷ s) || has_dashes s

invalid_option : Bytes → Effect
invalid_option mod_opt = print_err (codes "Invalid module option: " ++ (mod_opt ++ codes "\n"))

abbrev pub usage_text : Bytes
usage_text =
    codes
      "\nUsage: zsr [options]\n\nOptions:\n    -a, --all       enabled all modules\n    -c, --count     the value of count determines the number of reports generated\n    -d, --delay     delay-time interval\n    -l, --list      list enabled modules\n    -h, --help      help\n"

unfoldable pub new_text : Option Bytes → Bytes → Bytes
new_text none old = old
new_text (some text) old = text

-- What `%s` prints of a buffer that holds this text: it stops at a NUL, as mod_proc.c writes for a state 0.
abbrev pub until_nul : Bytes → Bytes
until_nul [] = []
until_nul (c ∷ s) = let rest = until_nul s in if c == 0 then [] else c ∷ rest

module _ {S R : Type 0} where
  -- The loop of `collect_record`: every module, enabled or not. Where one of them does not return, nothing
  -- of the round is seen: the loop of `main` asks `any_ended`.
  unfoldable pub collect_record : S → List (Module S R) → List (Module S R)
  collect_record now [] = []
  collect_record now (m ∷ ms) =
      record m { record_list = m.handlers.collect_record now m.record_list } ∷ collect_record now ms

  unfoldable pub any_ended : List (Module S R) → Bool
  any_ended [] = false
  any_ended (m ∷ ms) = m.handlers.ended m.record_list || any_ended ms

  unfoldable pub enable_first : Bytes → List (Module S R) → Option (List (Module S R))
  enable_first mod_opt [] = none
  enable_first mod_opt (m ∷ ms) =
      let rest = enable_first mod_opt ms in
      if same_text m.opt_line mod_opt
      then some (record m { enable = true } ∷ ms)
      else elim rest [ none ↦ none | some ms' ↦ some (m ∷ ms') ]

  unfoldable pub exit_unless : Bytes → Option (List (Module S R)) → Outcome (List (Module S R))
  unfolding invalid_option
  exit_unless mod_opt none = exited (invalid_option mod_opt ∷ [])
  exit_unless mod_opt (some ms) = returned ms []

  unfoldable pub enable_module : Bytes → List (Module S R) → Outcome (List (Module S R))
  unfolding enable_first exit_unless
  enable_module mod_opt ms = exit_unless mod_opt (enable_first mod_opt ms)

  unfoldable pub enable_all_module : List (Module S R) → List (Module S R)
  enable_all_module [] = []
  enable_all_module (m ∷ ms) = record m { enable = true } ∷ enable_all_module ms

  enabled_lines : List (Module S R) → List Effect
  enabled_lines [] = []
  enabled_lines (m ∷ ms) =
      if m.enable
      then print_err (codes "    " ++ (m.opt_line ++ codes "\n")) ∷ enabled_lines ms
      else enabled_lines ms

  unfoldable pub list_enable_module : List (Module S R) → List Effect
  unfolding enabled_lines
  list_enable_module ms =
      print_err (codes "\nModules Enabled:\n") ∷ (enabled_lines ms ++ print_err (codes "\n") ∷ [])

  usage_lines : List (Module S R) → List Effect
  usage_lines [] = []
  usage_lines (m ∷ ms) = print_err (m.usage ++ codes "\n") ∷ usage_lines ms

  unfoldable pub list_load_module : List (Module S R) → List Effect
  unfolding usage_lines
  list_load_module ms =
      print_err (codes "\nModules Loaded:\n") ∷ (usage_lines ms ++ print_err (codes "\n") ∷ [])

  unfoldable pub count_enabled : List (Module S R) → ℕ
  count_enabled [] = 0
  count_enabled (m ∷ ms) = (if m.enable then 1 else 0) + count_enabled ms

  unfoldable pub check_enable_module : List (Module S R) → Outcome (Unit {0})
  unfolding count_enabled
  check_enable_module ms =
      if count_enabled ms == 0
      then exited (print_err (codes "No module is enabled.\n") ∷ [])
      else returned tt []

  unfoldable pub usage : List (Module S R) → List Effect
  unfolding list_load_module list_enable_module
  usage ms = print_err usage_text ∷ (list_load_module ms ++ list_enable_module ms)

  -- The module whose handler has written its record, if it did.
  unfoldable pub write_record : Module S R → Module S R
  unfolding new_text
  write_record m = record m {
    record_text = new_text (m.handlers.record_to_str m.record_list) m.record_text;
  }

  -- What is printed for a module that returns -1 is the text that its buffer holds from before.
  unfoldable pub print_mod_record : List (Module S R) → List (Module S R) × List Effect
  unfolding write_record
  print_mod_record [] = ([], [])
  print_mod_record (m ∷ ms) =
      let (ms', es) = print_mod_record ms in
      if m.enable
      then (write_record m ∷ ms', print_out (until_nul (write_record m).record_text) ∷ es)
      else (m ∷ ms', es)
