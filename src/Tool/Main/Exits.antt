-- ===== src/Tool/Main/Exits.antt =====
-- What `main` does with the modules that the command line has enabled.
use zsr.Prelude.{ℕ, zero, suc, ◌<◌, ◌≡◌, ◌≢◌, refl, true, false, List, [], ◌∷◌, codes, All, arith}
use zsr.Prelude.Signed.{ℤ, pos, negsuc}
use zsr.Framework.{Module}
use zsr.Tool.Actions.{print_err, returned, exited, count_enabled, check_enable_module}
use zsr.Tool.Main.{
  Answer, count, delay, Settings, initial, set_options, main, positive_or_two, is_nonpositive,
  rounds,
}
use zsr.Libc.Scan.{atoi}
use zsr.Tool.Main.Rounds.{repeat_report, AllReturn, rounds-repeat_report, rounds-endless}

-- An answer that only sets the count or the interval.
abbrev pub IsSetting : Answer → Type 0
IsSetting (count arg) = Unit
IsSetting (delay arg) = Unit
IsSetting _ = ⊥

-- A count of 0 or less.
abbrev pub IsNotPositive : ℤ → Type 0
IsNotPositive (pos zero) = Unit
IsNotPositive (pos (suc n)) = ⊥
IsNotPositive (negsuc n) = Unit

module _ {S R : Type 0} where
  check-enabled :
      (ms : List (Module S R)) → count_enabled ms ≢ 0 → check_enable_module ms ≡ returned tt []
  unfolding check_enable_module
  check-enabled ms h = ground arith

  check-disabled :
      (ms : List (Module S R))
      → count_enabled ms ≡ 0
      → check_enable_module ms ≡ exited (print_err (codes "No module is enabled.\n") ∷ [])
  unfolding check_enable_module
  check-disabled ms h = ground arith

  -- When the options leave a module enabled and a positive count, and in each of that many rounds every module
  -- returns and its text fits the record buffer, `main` makes that many reports and ends; a round more than the count is fuel enough.
  pub main-reports :
      (fuel n : ℕ) (answers : List Answer) (shown : ℕ → S) (ms : List (Module S R))
      (s : Settings S R)
      → set_options answers (initial ms) ≡ returned s []
      → count_enabled s.mods ≢ 0
      → s.opt_count ≡ pos (suc n)
      → suc n < fuel
      → AllReturn (suc n) 0 shown s.mods
      → main fuel answers shown ms
        ≡ returned
            (record {
              finished = true;
              ended = false;
              mods = (repeat_report (suc n) s.opt_interval 0 shown s.mods).0;
              effects = (repeat_report (suc n) s.opt_interval 0 shown s.mods).1;
            })
            []
  unfolding main
  main-reports fuel n answers shown ms s parsed enabled counted h return =
      rw
        (
          parsed,
          check-enabled s.mods enabled,
          counted,
          rounds-repeat_report fuel (suc n) s.opt_interval 0 shown s.mods h return,
        )
        refl

  loop-endless :
      (c : ℤ) (fuel interval : ℕ) (shown : ℕ → S) (ms : List (Module S R))
      → IsNotPositive c
      → AllReturn fuel 0 shown ms
      → rounds fuel (is_nonpositive c) c interval 0 shown ms ≡ record {
        finished = false;
        ended = false;
        mods = (repeat_report fuel interval 0 shown ms).0;
        effects = (repeat_report fuel interval 0 shown ms).1;
      }
  loop-endless (pos zero) fuel interval shown ms h return =
      rounds-endless fuel (pos zero) interval 0 shown ms return
  loop-endless (pos (suc n)) fuel interval shown ms h return = absurd h
  loop-endless (negsuc n) fuel interval shown ms h return =
      rounds-endless fuel (negsuc n) interval 0 shown ms return

  -- When the options leave a module enabled and a count that is 0 or negative, `main` never ends by itself: for any
  -- number of rounds, as long as every module returns in them and its text fits the record buffer, it has made a report in each and has
  -- not finished.
  pub main-endless :
      (fuel : ℕ) (answers : List Answer) (shown : ℕ → S) (ms : List (Module S R)) (s : Settings S R)
      → set_options answers (initial ms) ≡ returned s []
      → count_enabled s.mods ≢ 0
      → IsNotPositive s.opt_count
      → AllReturn fuel 0 shown s.mods
      → main fuel answers shown ms
        ≡ returned
            (record {
              finished = false;
              ended = false;
              mods = (repeat_report fuel s.opt_interval 0 shown s.mods).0;
              effects = (repeat_report fuel s.opt_interval 0 shown s.mods).1;
            })
            []
  unfolding main
  main-endless fuel answers shown ms s parsed enabled endless return =
      rw
        (
          parsed,
          check-enabled s.mods enabled,
          loop-endless s.opt_count fuel s.opt_interval shown s.mods endless return,
        )
        refl

  settings-mods :
      (answers : List Answer) (s : Settings S R)
      → All IsSetting answers
      → (t : Settings S R) × (set_options answers s ≡ returned t []) × (t.mods ≡ s.mods)
  unfolding set_options
  settings-mods [] s h = (s, refl, refl)
  settings-mods (count arg ∷ answers) s (_, h) =
      let (t, e, same) = settings-mods answers (record s { opt_count = atoi arg }) h in
      (t, rw e refl, same)
  settings-mods (delay arg ∷ answers) s (_, h) =
      let (t, e, same) =
        settings-mods answers (record s { opt_interval = positive_or_two (atoi arg) }) h in
      (t, rw e refl, same)
  settings-mods (_ ∷ answers) s (no_setting, h) = absurd no_setting

  -- When the command line only sets the count and the interval and no module is enabled, `main` exits: the
  -- message is all that it writes, and there is no report, whatever the system shows.
  pub main-disabled :
      (fuel : ℕ) (answers : List Answer) (shown : ℕ → S) (ms : List (Module S R))
      → All IsSetting answers
      → count_enabled ms ≡ 0
      → main fuel answers shown ms ≡ exited (print_err (codes "No module is enabled.\n") ∷ [])
  unfolding main
  main-disabled fuel answers shown ms h disabled =
      let (t, parsed, same) = settings-mods answers (initial ms) h in
      rw (parsed, check-disabled t.mods (rw same disabled)) refl
