-- ===== src/Tool/Main.antt =====
-- `main` of zsr/tool_zsr.c: the command line, and the loop of reports. `getopt_long` is not in the
-- repository: what it returns for the command line is the list of its answers.
pub mod Rounds
pub mod Latest
pub mod Exits
pub mod Contracts
pub mod Kept
use zsr.Prelude.{
  ℕ, zero, suc, ◌+◌, Bool, true, false, ◌&&◌, not, Option, none, some, List, [], ◌∷◌, ◌++◌, Bytes,
  codes, ◌==◌, if◌then◌else◌,
}
use zsr.Prelude.Signed.{ℤ, pos, negsuc, pred}
use zsr.Libc.Scan.{atoi}
use zsr.Framework.{Module}
use zsr.Tool.Actions.{
  Effect, print_out, sleep, Outcome, returned, exited, ◌>>=◌, ◌>>◌, has_dashes, collect_record,
  any_ended, enable_module, enable_all_module, list_enable_module, list_load_module,
  check_enable_module, usage, print_mod_record,
}

-- An answer of `getopt_long`; `unknown` is '?', with `argv[optind - 1]`.
pub data Answer : Type 0 where
  all : Answer
  count : Bytes → Answer
  delay : Bytes → Answer
  list : Answer
  load : Answer
  help : Answer
  missing : Answer
  unknown : Option Bytes → Answer
  other : Answer

-- `main`'s variables while it reads the command line.
pub record Settings (S R : Type 0) : Type 0 where
  pub mods : List (Module S R)
  pub opt_count : ℤ
  pub opt_interval : ℕ

-- What the loop has done when it ends, or when the rounds that it was given are over. `finished`: it has
-- made its reports; `ended`: a module has not returned in a round.
pub record Run (S R : Type 0) : Type 0 where
  pub finished : Bool
  pub ended : Bool
  pub mods : List (Module S R)
  pub effects : List Effect

-- `n <= 0`.
abbrev pub is_nonpositive : ℤ → Bool
is_nonpositive (pos zero) = true
is_nonpositive (pos (suc n)) = false
is_nonpositive (negsuc n) = true

-- `n > 0 ? n : 2`.
abbrev positive_or_two : ℤ → ℕ
positive_or_two (pos zero) = 2
positive_or_two (pos (suc n)) = suc n
positive_or_two (negsuc n) = 2

-- `++i != 1`: no sleep before the first report.
abbrev pub pause : ℕ → ℕ → List Effect
pause i interval = if i + 1 == 1 then [] else sleep interval ∷ []

module _ {S R : Type 0} where
  unknown_option : Option Bytes → List (Module S R) → Outcome (List (Module S R))
  unfolding has_dashes
  unknown_option none ms = exited (usage ms)
  unknown_option (some arg) ms = if has_dashes arg then enable_module arg ms else exited (usage ms)

  with_mods : Settings S R → List (Module S R) → Outcome (Settings S R)
  with_mods s ms = returned (record s { mods = ms }) []

  -- The body of the option loop.
  unfoldable pub set_option : Answer → Settings S R → Outcome (Settings S R)
  unfolding unknown_option with_mods enable_all_module
  set_option all s = with_mods s (enable_all_module s.mods)
  set_option (count arg) s = returned (record s { opt_count = atoi arg }) []
  set_option (delay arg) s = returned (record s { opt_interval = positive_or_two (atoi arg) }) []
  set_option list s = exited (list_enable_module s.mods)
  set_option load s = exited (list_load_module s.mods)
  set_option help s = exited (usage s.mods)
  set_option missing s = exited (print_out (codes "must have parameter\n") ∷ usage s.mods)
  set_option (unknown arg) s = unknown_option arg s.mods >>= with_mods s
  set_option other s = exited (usage s.mods)

  unfoldable pub set_options : List Answer → Settings S R → Outcome (Settings S R)
  unfolding set_option
  set_options [] s = returned s []
  set_options (a ∷ answers) s = set_option a s >>= set_options answers

  -- One round: every module collects, and the enabled ones print.
  unfoldable pub report : S → List (Module S R) → List (Module S R) × List Effect
  unfolding collect_record print_mod_record
  report now ms = print_mod_record (collect_record now ms)

  -- The loop of `main` for at most `fuel` rounds; `shown i` is what the system shows in round `i`.
  unfoldable pub rounds : ℕ → Bool → ℤ → ℕ → ℕ → (ℕ → S) → List (Module S R) → Run S R
  unfolding report collect_record any_ended
  rounds zero is_loop opt_count interval i shown ms = record {
    finished = false;
    ended = false;
    mods = ms;
    effects = [];
  }
  rounds (suc fuel) is_loop opt_count interval i shown ms =
      let collected = collect_record (shown i) ms in
      let (ms', es) = report (shown i) ms in
      let next = if is_loop then opt_count else pred opt_count in
      let rest = rounds fuel is_loop next interval (i + 1) shown ms' in
      if not is_loop && is_nonpositive opt_count
      then record { finished = true; ended = false; mods = ms; effects = [] }
      else if any_ended collected
      then record { finished = false; ended = true; mods = collected; effects = pause i interval }
      else record {
        finished = rest.finished;
        ended = rest.ended;
        mods = rest.mods;
        effects = pause i interval ++ (es ++ rest.effects);
      }

  abbrev pub initial : List (Module S R) → Settings S R
  initial ms = record { mods = ms; opt_count = negsuc 0; opt_interval = 2 }

  start : ℕ → (ℕ → S) → Settings S R → Outcome (Run S R)
  unfolding rounds
  start fuel shown s =
      returned (rounds fuel (is_nonpositive s.opt_count) s.opt_count s.opt_interval 0 shown s.mods)
        []

  -- `main`, from the list of modules that `load_modules` makes to the end of the loop.
  unfoldable pub main : ℕ → List Answer → (ℕ → S) → List (Module S R) → Outcome (Run S R)
  unfolding start
  main fuel answers shown ms = do
    s ← set_options answers (initial ms)
    check_enable_module s.mods
    start fuel shown s
