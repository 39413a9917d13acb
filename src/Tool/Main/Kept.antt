-- ===== src/Tool/Main/Kept.antt =====
-- What every module keeps through the whole program, if its handlers keep it.
use zsr.Prelude.{
  ℕ, zero, suc, ◌+◌, Bool, ◌&&◌, not, Option, none, some, List, [], ◌∷◌, Bytes, All, All-append,
  ◌==◌, if◌then◌else◌,
}
use zsr.Prelude.Signed.{ℤ, pred}
use zsr.Framework.{Module}
use zsr.Tool.Actions.{
  any_ended, collect_record, has_dashes, enable_first, enable_module, Outcome, returned, exited,
  check_enable_module, count_enabled,
}
use zsr.Tool.Main.{
  unknown_option, Answer, all, count, delay, list, load, help, missing, unknown, other, Settings,
  Run, is_nonpositive, pause, unknown_option, with_mods, set_option, set_options, report, rounds,
  initial, start, main,
}
use zsr.Tool.Main.Contracts.{
  Prints, OfReturned, if_both, OfReturned-bind, AllKeep, report-Keeps, collect_record-Keeps,
  enable_all-Keeps, exit_unless-Keeps, enable_first-Keeps,
}

module _ {S R : Type 0} (Q : S → Type 0) (P : R → Type 0) (T : Bytes → Type 0) where
  unknown_option-Keeps :
      (o : Option Bytes) (ms : List (Module S R))
      → AllKeep Q P T ms
      → OfReturned (AllKeep Q P T) (unknown_option o ms)
  unfolding unknown_option enable_module
  unknown_option-Keeps none ms h = tt
  unknown_option-Keeps (some arg) ms h =
      if_both (OfReturned (AllKeep Q P T)) (has_dashes arg) _ _
        (exit_unless-Keeps Q P T arg (enable_first arg ms) (enable_first-Keeps Q P T arg ms h)) tt

  abbrev SettingsKeep : Settings S R → Type 0
  SettingsKeep s = AllKeep Q P T s.mods

  set_option-Keeps :
      (a : Answer) (s : Settings S R)
      → AllKeep Q P T s.mods
      → OfReturned SettingsKeep (set_option a s)
  unfolding set_option with_mods
  set_option-Keeps all s h = enable_all-Keeps Q P T s.mods h
  set_option-Keeps (count arg) s h = h
  set_option-Keeps (delay arg) s h = h
  set_option-Keeps list s h = tt
  set_option-Keeps load s h = tt
  set_option-Keeps help s h = tt
  set_option-Keeps missing s h = tt
  set_option-Keeps (unknown arg) s h =
      OfReturned-bind (AllKeep Q P T) SettingsKeep (unknown_option arg s.mods) (with_mods s)
        (unknown_option-Keeps arg s.mods h) (λ ms k. k)
  set_option-Keeps other s h = tt

  set_options-Keeps :
      (answers : List Answer) (s : Settings S R)
      → AllKeep Q P T s.mods
      → OfReturned SettingsKeep (set_options answers s)
  unfolding set_options
  set_options-Keeps [] s h = h
  set_options-Keeps (a ∷ answers) s h =
      OfReturned-bind SettingsKeep SettingsKeep (set_option a s) (set_options answers)
        (set_option-Keeps a s h) (λ s' k. set_options-Keeps answers s' k)

  abbrev pub RunKeeps : Run S R → Type 0
  RunKeeps r = AllKeep Q P T r.mods × All (Prints T) r.effects

  pause-Prints : (i interval : ℕ) → All (Prints T) (pause i interval)
  pause-Prints i interval = if_both (All (Prints T)) (i + 1 == 1) _ _ tt (tt, tt)

  rounds-Keeps :
      (fuel : ℕ) (is_loop : Bool) (c : ℤ) (interval i : ℕ) (shown : ℕ → S) (ms : List (Module S R))
      → ((j : ℕ) → Q (shown j))
      → AllKeep Q P T ms
      → RunKeeps (rounds fuel is_loop c interval i shown ms)
  unfolding rounds
  rounds-Keeps zero is_loop c interval i shown ms q h = (h, tt)
  rounds-Keeps (suc fuel) is_loop c interval i shown ms q h =
      let next = if is_loop then c else pred c in
      let (keep, out) = report-Keeps Q P T (shown i) ms (q i) h in
      let (keeps, outs) =
        rounds-Keeps fuel is_loop next interval (i + 1) shown (report (shown i) ms).0 q keep in
      let paused = pause-Prints i interval in
      if_both RunKeeps (not is_loop && is_nonpositive c) _ _ (h, tt)
        (if_both RunKeeps (any_ended (collect_record (shown i) ms)) _ _
          (collect_record-Keeps Q P T (shown i) ms (q i) h, paused)
          (
            keeps,
            All-append (Prints T) (pause i interval) _ (pause-Prints i interval)
                (All-append (Prints T) (report (shown i) ms).1 _ out outs),
          ))

  -- For any command line and any number of rounds.
  pub main-Keeps :
      (fuel : ℕ) (answers : List Answer) (shown : ℕ → S) (ms : List (Module S R))
      → ((j : ℕ) → Q (shown j))
      → AllKeep Q P T ms
      → OfReturned RunKeeps (main fuel answers shown ms)
  unfolding main check_enable_module
  main-Keeps fuel answers shown ms q h =
      OfReturned-bind SettingsKeep RunKeeps (set_options answers (initial ms)) _
        (set_options-Keeps answers (initial ms) h)
        λ s k.
          OfReturned-bind (λ (u : Unit {0}). Unit {0}) RunKeeps (check_enable_module s.mods)
            (λ u. start fuel shown s) (checked s.mods)
            λ u v.
              rounds-Keeps fuel (is_nonpositive s.opt_count) s.opt_count s.opt_interval 0 shown
                s.mods q k
    where
      checked :
          (ms : List (Module S R))
          → OfReturned (λ (u : Unit {0}). Unit {0}) (check_enable_module ms)
      checked ms =
          if_both (OfReturned (λ (u : Unit {0}). Unit {0})) (count_enabled ms == 0) _ _ tt tt

  kept_records : (ms : List (Module S R)) → AllKeep Q P T ms → All (λ m. P m.record_list) ms
  kept_records [] h = tt
  kept_records (m ∷ ms) (k, h) = (k.records, kept_records ms h)

  kept_texts : (ms : List (Module S R)) → AllKeep Q P T ms → All (λ m. T m.record_text) ms
  kept_texts [] h = tt
  kept_texts (m ∷ ms) (k, h) = (k.text, kept_texts ms h)

  abbrev pub Kept : Run S R → Type 0
  Kept r =
      All (λ m. P m.record_list) r.mods
      × All (λ m. T m.record_text) r.mods
      × All (Prints T) r.effects

  OfReturned-Kept : (o : Outcome (Run S R)) → OfReturned RunKeeps o → OfReturned Kept o
  OfReturned-Kept (returned r es) (keep, out) =
      (kept_records r.mods keep, kept_texts r.mods keep, out)
  OfReturned-Kept (exited es) h = tt

  pub main-Kept :
      (fuel : ℕ) (answers : List Answer) (shown : ℕ → S) (ms : List (Module S R))
      → ((j : ℕ) → Q (shown j))
      → AllKeep Q P T ms
      → OfReturned Kept (main fuel answers shown ms)
  main-Kept fuel answers shown ms q h =
      OfReturned-Kept (main fuel answers shown ms) (main-Keeps fuel answers shown ms q h)
