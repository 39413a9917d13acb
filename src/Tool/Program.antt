-- ===== src/Tool/Program.antt =====
-- The whole program, from the command line to what is printed: `main` with the fourteen modules of
-- `load_modules` and their own handlers, for the modules that keep the last answer only.
use zsr.Prelude.{
  ℕ, zero, suc, ◌<◌, ◌≡◌, refl, ap, ◌∙◌, true, false, Option, some, List, [], ◌∷◌, ◌++◌, Bytes,
  codes, drop, All, arith, same_text,
}
use zsr.Prelude.Signed.{pos}
use zsr.Libc.Scan.{atoi}
use zsr.Double.{Double}
use zsr.Fs.{FsNumbers}
use zsr.Framework.{Module}
use zsr.Framework.Loading.{load_modules}
use zsr.Modules.Handlers.{SystemView, Records, all_handlers}
use zsr.Modules.Handlers.Contracts.{
  Snapshot, dns, network, who, fs, snapshot_handlers, snapshot_text, snapshot_latest,
}
use zsr.Tool.Actions.{has_dashes, enable_module, count_enabled, returned}
use zsr.Tool.Main.{count, unknown, Settings, initial, set_options, main, Run}
use zsr.Tool.Main.Rounds.{repeat_report, AllReturn}
use zsr.Tool.Main.Latest.{IsDisabled, latest_reports, repeat_report-latest}
use zsr.Tool.Main.Exits.{main-reports}

abbrev pub snapshot_opt : Snapshot → Bytes
snapshot_opt dns = codes "--dns"
snapshot_opt network = codes "--network"
snapshot_opt who = codes "--who"
snapshot_opt fs = codes "--fs"

-- The position of the module in the list.
abbrev position : Snapshot → ℕ
position dns = 1
position fs = 2
position network = 8
position who = 13

module _ {S R : Type 0} where
  abbrev enable_at : ℕ → List (Module S R) → List (Module S R)
  enable_at i [] = []
  enable_at zero (m ∷ ms) = record m { enable = true } ∷ ms
  enable_at (suc i) (m ∷ ms) = m ∷ enable_at i ms

  abbrev first : ℕ → List (Module S R) → List (Module S R)
  first zero ms = []
  first (suc i) [] = []
  first (suc i) (m ∷ ms) = m ∷ first i ms

module _ (D : Double) (sscanf_f : Bytes → List D.F) (inet_ntop : ℕ → Option Bytes)
    (held : FsNumbers D.F) where
  open D use {F}

  abbrev loaded : List (Module SystemView (Records F))
  loaded = load_modules (all_handlers D sscanf_f inet_ntop held) []

  -- The modules with the one enabled.
  abbrev pub enabled : Snapshot → List (Module SystemView (Records F))
  enabled k = enable_at (position k) loaded

  settings : Snapshot → Bytes → Settings SystemView (Records F)
  settings k arg = record {
    mods = enable_at (position k) loaded;
    opt_count = atoi arg;
    opt_interval = 2;
  }

  parsed :
      (k : Snapshot) (arg : Bytes)
      → set_options (unknown (some (snapshot_opt k)) ∷ count arg ∷ []) (initial loaded)
        ≡ returned (settings k arg) []
  unfolding set_options enable_module load_modules same_text has_dashes settings
  parsed dns arg = refl
  parsed network arg = refl
  parsed who arg = refl
  parsed fs arg = refl

  mods_split :
      (k : Snapshot) (arg : Bytes)
      → (m : Module SystemView (Records F)) × ((settings k arg).mods
          ≡ first (position k) loaded ++ m ∷ drop (suc (position k)) loaded)
        × (m.handlers ≡ snapshot_handlers D sscanf_f inet_ntop held k)
        × (m.enable ≡ true)
        × (m.record_text ≡ [])
  unfolding load_modules settings all_handlers
  mods_split dns arg = (_, refl, refl, refl, refl)
  mods_split network arg = (_, refl, refl, refl, refl)
  mods_split who arg = (_, refl, refl, refl, refl)
  mods_split fs arg = (_, refl, refl, refl, refl)

  others-IsDisabled :
      (k : Snapshot) (arg : Bytes)
      → All IsDisabled (first (position k) loaded)
        × All IsDisabled (drop (suc (position k)) loaded)
        × (count_enabled (settings k arg).mods ≡ 1)
  unfolding load_modules settings count_enabled
  others-IsDisabled dns arg = ground arith
  others-IsDisabled network arg = ground arith
  others-IsDisabled who arg = ground arith
  others-IsDisabled fs arg = ground arith

  reports_latest :
      (k : Snapshot) (n : ℕ) (arg : Bytes) (shown : ℕ → SystemView)
      → (repeat_report n 2 0 shown (settings k arg).mods).1
        ≡ latest_reports (snapshot_text D sscanf_f inet_ntop held k) n 2 0 shown []
  unfolding snapshot_latest
  reports_latest k n arg shown =
      let (m, split, handlers, on, text) = mods_split k arg in
      let (before, after, one) = others-IsDisabled k arg in
      ap (λ ms. (repeat_report n 2 0 shown ms).1) split
      ∙ repeat_report-latest (snapshot_handlers D sscanf_f inet_ntop held k)
          (snapshot_latest D sscanf_f inet_ntop held k) n 2 0 shown (first (position k) loaded) m
          (drop (suc (position k)) loaded) handlers before on after
      ∙ ap (latest_reports (snapshot_text D sscanf_f inet_ntop held k) n 2 0 shown) text

  -- Started with the option of one of the four modules and a positive count, where in each of that many rounds
  -- all fourteen modules return and the text fits the record buffer, the program makes that many reports and ends. It prints, with a
  -- sleep of two seconds before each report but the first, a line for each entry of what the system
  -- answers at the moment; where the answer has no entry, it prints the text of the report before
  -- again, or nothing at first. Each text is printed up to its first NUL.
  pub main-latest :
      (k : Snapshot) (fuel n : ℕ) (arg : Bytes) (shown : ℕ → SystemView)
      → atoi arg ≡ pos (suc n)
      → suc n < fuel
      → AllReturn (suc n) 0 shown (enabled k)
      → (r : Run SystemView (Records F)) × (main fuel
            (unknown (some (snapshot_opt k)) ∷ count arg ∷ [])
            shown
            (load_modules (all_handlers D sscanf_f inet_ntop held) [])
          ≡ returned r [])
        × (r.finished ≡ true)
        × (r.ended ≡ false)
        × (r.effects
            ≡ latest_reports (snapshot_text D sscanf_f inet_ntop held k) (suc n) 2 0 shown [])
  unfolding settings
  main-latest k fuel n arg shown counted enough return = (
    _,
    main-reports fuel n (unknown (some (snapshot_opt k)) ∷ count arg ∷ []) shown loaded
        (settings k arg) (parsed k arg) (omega (arith, (others-IsDisabled k arg).2)) counted enough
        return,
    refl,
    refl,
    reports_latest k (suc n) arg shown,
  )
