-- ===== src/Tests/Command.antt =====
-- The list of modules, the command line and the loop of reports.
use zsr.Prelude.{
  ℕ, ◌+◌, ◌≡◌, ◌≢◌, refl, true, false, none, some, [], ◌∷◌, List, Bytes, codes, map, arith,
  same_text, ne_of_same_text, ◌==◌,
}
use zsr.Prelude.Signed.{pos, negsuc}
use zsr.Libc.Scan.{atoi}
use zsr.Framework.{Handlers, Module}
use zsr.Tool.Actions.{
  any_ended, collect_record, print_err, returned, exited, enable_module, count_enabled,
}
use zsr.Tool.Main.{report, Answer, count, delay, unknown, Settings, set_options, main}
use zsr.Tool.Main.Rounds.{
  repeat_report, after_rounds, all_reports, repeat_report-effects, repeat_report-collected,
}
use zsr.Tool.Main.Exits.{main-reports, main-endless, main-disabled}

-- A module that keeps what it is shown, prints its last value, and does not return where it is shown 103.
abbrev keeping : Handlers ℕ (List ℕ)
keeping = record {
  collect_record = λ now seen. now ∷ seen;
  record_to_str = λ seen. elim seen [ [] ↦ none | n ∷ _ ↦ some (n ∷ []) ];
  empty = [];
  ended = λ seen. elim seen [ [] ↦ false | n ∷ _ ↦ n == 103 ];
}

abbrev a_module : Bytes → Module ℕ (List ℕ)
a_module opt = record {
  name = opt;
  opt_line = opt;
  usage = [];
  enable = false;
  record_text = [];
  record_list = [];
  num_col = 1;
  info = [];
  handlers = keeping;
}

abbrev two_modules : List (Module ℕ (List ℕ))
two_modules = a_module (codes "--cpu") ∷ a_module (codes "--ip") ∷ []

abbrev ip_enabled : List (Module ℕ (List ℕ))
ip_enabled = a_module (codes "--cpu") ∷ record (a_module (codes "--ip")) { enable = true } ∷ []

cpu-ne-ip : codes "--cpu" ≢ codes "--ip"
unfolding same_text
cpu-ne-ip = ne_of_same_text (codes "--cpu") (codes "--ip") refl

cpu-ne-io : codes "--cpu" ≢ codes "--io"
unfolding same_text
cpu-ne-io = ne_of_same_text (codes "--cpu") (codes "--io") refl

ip-ne-io : codes "--ip" ≢ codes "--io"
unfolding same_text
ip-ne-io = ne_of_same_text (codes "--ip") (codes "--io") refl

abbrev shown : ℕ → ℕ
shown i = i + 100

repeat_report-effects_example :
    (repeat_report 5 2 0 shown ip_enabled).1 ≡ all_reports 5 2 0 shown ip_enabled
repeat_report-effects_example = repeat_report-effects 5 2 0 shown ip_enabled

repeat_report-collected_example :
    (repeat_report 5 2 0 shown ip_enabled).0 ≡ map (after_rounds 5 0 shown) ip_enabled
repeat_report-collected_example = repeat_report-collected 5 2 0 shown ip_enabled

-- `zsr --ip -c 3 -d 9`.
abbrev three_reports : List Answer
three_reports = unknown (some (codes "--ip")) ∷ count (codes "3") ∷ delay (codes "9") ∷ []

abbrev three_settings : Settings ℕ (List ℕ)
three_settings = record { mods = ip_enabled; opt_count = pos 3; opt_interval = 9 }

main-reports_example :
    main 4 three_reports shown two_modules
    ≡ returned
        (record {
          finished = true;
          ended = false;
          mods = (repeat_report 3 9 0 shown ip_enabled).0;
          effects = (repeat_report 3 9 0 shown ip_enabled).1;
        })
        []
unfolding set_options enable_module same_text atoi count_enabled any_ended collect_record report
main-reports_example =
    main-reports 4 2 three_reports shown two_modules three_settings refl (omega arith) refl
      (omega arith)
      ((refl, (refl, tt)), refl, ((refl, (refl, tt)), refl, ((refl, (refl, tt)), refl, tt)))

-- `zsr --ip -c 5 -d 9`: the fourth round does not return.
abbrev five_reports : List Answer
five_reports = unknown (some (codes "--ip")) ∷ count (codes "5") ∷ delay (codes "9") ∷ []

abbrev five_settings : Settings ℕ (List ℕ)
five_settings = record { mods = ip_enabled; opt_count = pos 5; opt_interval = 9 }

-- `zsr --ip -d 9`.
abbrev no_count : List Answer
no_count = unknown (some (codes "--ip")) ∷ delay (codes "9") ∷ []

abbrev endless_settings : Settings ℕ (List ℕ)
endless_settings = record { mods = ip_enabled; opt_count = negsuc 0; opt_interval = 9 }

main-endless_example :
    main 3 no_count shown two_modules
    ≡ returned
        (record {
          finished = false;
          ended = false;
          mods = (repeat_report 3 9 0 shown ip_enabled).0;
          effects = (repeat_report 3 9 0 shown ip_enabled).1;
        })
        []
unfolding set_options enable_module same_text atoi count_enabled any_ended collect_record report
main-endless_example =
    main-endless 3 no_count shown two_modules endless_settings refl (omega arith) tt
      ((refl, (refl, tt)), refl, ((refl, (refl, tt)), refl, ((refl, (refl, tt)), refl, tt)))

main-disabled_example :
    main 9 (count (codes "5") ∷ []) shown two_modules
    ≡ exited (print_err (codes "No module is enabled.\n") ∷ [])
unfolding count_enabled
main-disabled_example = main-disabled 9 (count (codes "5") ∷ []) shown two_modules (tt, tt) refl
