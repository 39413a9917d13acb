-- ===== src/Tool/Main/Rounds.antt =====
-- How many reports the loop of `main` makes, and what they do.
use zsr.Prelude.{
  ltb, length, Option, none, some, ◌&&◌, not, ◌||◌, Bool, All, ℕ, zero, suc, ◌+◌, ◌<◌, ◌≡◌, refl,
  sym, ap, ap₂, ◌∙◌, true, false, inl, inr, Bool-cases, List, [], ◌∷◌, ◌++◌, append_assoc, Bytes,
  arith, if◌then◌else◌, map,
}
use mathlib.Core.Bool.{or-true}
use zsr.Prelude.Signed.{ℤ, pos}
use zsr.Modules.Buffer.{len_1m}
use zsr.Framework.{Handlers, Module}
use zsr.Tool.Actions.{
  Effect, print_out, sleep, until_nul, new_text, write_record, print_mod_record, collect_record,
  any_ended,
}
use zsr.Tool.Main.{Run, report, rounds, pause}

or_false : (a b : Bool) → (a || b) ≡ false → (a ≡ false) × (b ≡ false)
or_false a b e = ground arith

abbrev text_fits : Option Bytes → Bool
text_fits none = true
text_fits (some text) = ltb (length text) len_1m

module _ {S R : Type 0} where
  -- `n` reports, the first of them in round `i`.
  unfoldable pub repeat_report :
      ℕ → ℕ → ℕ → (ℕ → S) → List (Module S R) → List (Module S R) × List Effect
  repeat_report zero interval i shown ms = (ms, [])
  repeat_report (suc n) interval i shown ms =
      let (ms', es) = report (shown i) ms in
      let (ms'', fs) = repeat_report n interval (i + 1) shown ms' in
      (ms'', pause i interval ++ (es ++ fs))

  -- A module whose handler has returned.
  abbrev pub HasReturned : Module S R → Type 0
  HasReturned m = m.handlers.ended m.record_list ≡ false

  any_ended-HasReturned : (ms : List (Module S R)) → All HasReturned ms → any_ended ms ≡ false
  unfolding any_ended
  any_ended-HasReturned [] h = refl
  any_ended-HasReturned (m ∷ ms) (here, later) = rw (here, any_ended-HasReturned ms later) refl

  pub none_ended : (ms : List (Module S R)) → any_ended ms ≡ false → All HasReturned ms
  unfolding any_ended
  none_ended [] e = tt
  none_ended (m ∷ ms) e =
      let (here, later) = or_false (m.handlers.ended m.record_list) (any_ended ms) e in
      (here, none_ended ms later)

  pub any_ended-at :
      (before : List (Module S R)) (m : Module S R) (after : List (Module S R))
      → m.handlers.ended m.record_list ≡ true
      → any_ended (before ++ m ∷ after) ≡ true
  unfolding any_ended
  any_ended-at [] m after e = rw e refl
  any_ended-at (b ∷ before) m after e = rw (any_ended-at before m after e) (or-true _)

  -- The texts that the enabled modules write fit the record buffer, with their NUL.
  abbrev pub texts_fit : List (Module S R) → Bool
  texts_fit [] = true
  texts_fit (m ∷ ms) =
      (not m.enable || text_fits (m.handlers.record_to_str m.record_list)) && texts_fit ms

  -- In the `n` rounds from `i` on the handlers of every module return, and none writes past its record
  -- buffer.
  abbrev pub AllReturn : ℕ → ℕ → (ℕ → S) → List (Module S R) → Type 0
  AllReturn zero i shown ms = Unit
  AllReturn (suc n) i shown ms =
      All HasReturned (collect_record (shown i) ms)
      × (texts_fit (collect_record (shown i) ms) ≡ true)
      × AllReturn n (i + 1) shown (report (shown i) ms).0

  -- With a positive count the loop ends after that many reports, and does nothing else; a round more
  -- than the count is fuel enough.
  pub rounds-repeat_report :
      (fuel n interval i : ℕ) (shown : ℕ → S) (ms : List (Module S R))
      → n < fuel
      → AllReturn n i shown ms
      → rounds fuel false (pos n) interval i shown ms ≡ record {
        finished = true;
        ended = false;
        mods = (repeat_report n interval i shown ms).0;
        effects = (repeat_report n interval i shown ms).1;
      }
  unfolding rounds repeat_report
  rounds-repeat_report zero n interval i shown ms h r = absurd (omega arith)
  rounds-repeat_report (suc fuel) zero interval i shown ms h r = refl
  rounds-repeat_report (suc fuel) (suc n) interval i shown ms h (here, fit, later) =
      rw
        (
          any_ended-HasReturned (collect_record (shown i) ms) here,
          rounds-repeat_report fuel n interval (i + 1) shown (report (shown i) ms).0 (omega arith)
              later,
        )
        refl

  -- What a run has done that ends in the collection of round `j`, behind `k` reports.
  abbrev pub stopped : ℕ → ℕ → ℕ → ℕ → (ℕ → S) → List (Module S R) → Run S R
  stopped k j interval i shown ms = record {
    finished = false;
    ended = true;
    mods = collect_record (shown j) (repeat_report k interval i shown ms).0;
    effects = (repeat_report k interval i shown ms).1 ++ pause j interval;
  }

  stopped-here :
      (j interval i : ℕ) (shown : ℕ → S) (ms : List (Module S R))
      → i ≡ j
      → record {
        finished = false;
        ended = true;
        mods = collect_record (shown i) ms;
        effects = pause i interval;
      }
        ≡ stopped 0 j interval i shown ms
  unfolding repeat_report
  stopped-here j interval i shown ms e =
      ap
        (λ x. record {
          finished = false;
          ended = true;
          mods = collect_record (shown x) ms;
          effects = pause x interval;
        })
        e

  -- Where a module does not return in the round behind `k` reports, the loop makes no other report.
  pub rounds-stopped :
      (fuel n k j interval i : ℕ) (shown : ℕ → S) (ms : List (Module S R))
      → k < n
      → k < fuel
      → i + k ≡ j
      → AllReturn k i shown ms
      → any_ended (collect_record (shown j) (repeat_report k interval i shown ms).0) ≡ true
      → rounds fuel false (pos n) interval i shown ms ≡ stopped k j interval i shown ms
  unfolding rounds repeat_report
  rounds-stopped zero n k j interval i shown ms few h at r e = absurd (omega arith)
  rounds-stopped (suc fuel) zero k j interval i shown ms few h at r e = absurd (omega arith)
  rounds-stopped (suc fuel) (suc n) zero j interval i shown ms few h at r e =
      let same : i ≡ j = omega arith in
      let here : any_ended (collect_record (shown i) ms) ≡ true =
        ap (λ x. any_ended (collect_record (shown x) ms)) same ∙ e in
      rw here (stopped-here j interval i shown ms same)
  rounds-stopped (suc fuel) (suc n) (suc k) j interval i shown ms few h at (here, fit, later) e =
      let ms' = (report (shown i) ms).0 in
      let es = (report (shown i) ms).1 in
      let fs = (repeat_report k interval (i + 1) shown ms').1 in
      rw
        (
          any_ended-HasReturned (collect_record (shown i) ms) here,
          rounds-stopped fuel n k j interval (i + 1) shown ms' (omega arith) (omega arith)
              (omega arith) later e,
        )
        (ap
          (λ t. record {
            finished = false;
            ended = true;
            mods = collect_record (shown j) (repeat_report k interval (i + 1) shown ms').0;
            effects = t;
          })
          (ap (λ t. pause i interval ++ t) (sym (append_assoc es fs (pause j interval)))
            ∙ sym (append_assoc (pause i interval) (es ++ fs) (pause j interval))))

  -- Without a positive count the loop has made as many reports as it was given rounds, and goes on.
  pub rounds-endless :
      (fuel : ℕ) (c : ℤ) (interval i : ℕ) (shown : ℕ → S) (ms : List (Module S R))
      → AllReturn fuel i shown ms
      → rounds fuel true c interval i shown ms ≡ record {
        finished = false;
        ended = false;
        mods = (repeat_report fuel interval i shown ms).0;
        effects = (repeat_report fuel interval i shown ms).1;
      }
  unfolding rounds repeat_report
  rounds-endless zero c interval i shown ms r = refl
  rounds-endless (suc fuel) c interval i shown ms (here, fit, later) =
      rw
        (
          any_ended-HasReturned (collect_record (shown i) ms) here,
          rounds-endless fuel c interval (i + 1) shown (report (shown i) ms).0 later,
        )
        refl

-- No wait before the report of round 0, and the interval before any other.
abbrev pub wait_before : ℕ → ℕ → List Effect
wait_before zero interval = []
wait_before (suc i) interval = sleep interval ∷ []

pub pause-wait : (i interval : ℕ) → pause i interval ≡ wait_before i interval
pause-wait zero interval = refl
pause-wait (suc i) interval = ground arith

module _ {S R : Type 0} where
  -- What the handlers of a module make of its record list in `n` rounds.
  abbrev pub collected : ℕ → ℕ → (ℕ → S) → Handlers S R → R → R
  collected zero i shown h r = r
  collected (suc n) i shown h r = collected n (i + 1) shown h (h.collect_record (shown i) r)

  -- The text in the buffer of an enabled module behind `n` rounds, from its record list and its text
  -- before: what `record_to_str` makes of the list in the last round that writes.
  abbrev pub text_after : ℕ → ℕ → (ℕ → S) → Handlers S R → R → Bytes → Bytes
  text_after zero i shown h r old = old
  text_after (suc n) i shown h r old =
      let r' = h.collect_record (shown i) r in
      text_after n (i + 1) shown h r' (new_text (h.record_to_str r') old)

  -- A module behind `n` rounds.
  abbrev pub after_rounds : ℕ → ℕ → (ℕ → S) → Module S R → Module S R
  after_rounds n i shown m = record m {
    record_list = collected n i shown m.handlers m.record_list;
    record_text =
        if m.enable
        then text_after n i shown m.handlers m.record_list m.record_text
        else m.record_text;
  }

  report-after :
      (n i : ℕ) (shown : ℕ → S) (ms : List (Module S R))
      → map (after_rounds n (i + 1) shown) (report (shown i) ms).0
        ≡ map (after_rounds (suc n) i shown) ms
  unfolding report collect_record print_mod_record write_record
  report-after n i shown [] = refl
  report-after n i shown (m ∷ ms) = elim (Bool-cases m.enable) [
    | inl on ↦ rw on (ap₂ ◌∷◌ refl (report-after n i shown ms))
    | inr off ↦ rw off (ap₂ ◌∷◌ refl (report-after n i shown ms))
  ]

  after-zero :
      (i : ℕ) (shown : ℕ → S) (ms : List (Module S R)) → ms ≡ map (after_rounds 0 i shown) ms
  after-zero i shown [] = refl
  after-zero i shown (m ∷ ms) = elim (Bool-cases m.enable) [
    | inl on ↦ ap₂ ◌∷◌ (rw on refl) (after-zero i shown ms)
    | inr off ↦ ap₂ ◌∷◌ (rw off refl) (after-zero i shown ms)
  ]

  -- After `n` reports each module, whether it is enabled or not, holds what its own handler collected in
  -- the `n` rounds; an enabled one has the text of its own `record_to_str` in its buffer, another one
  -- the text it had; and everything else of it is unchanged.
  pub repeat_report-collected :
      (n interval i : ℕ) (shown : ℕ → S) (ms : List (Module S R))
      → (repeat_report n interval i shown ms).0 ≡ map (after_rounds n i shown) ms
  unfolding repeat_report
  repeat_report-collected zero interval i shown ms = after-zero i shown ms
  repeat_report-collected (suc n) interval i shown ms =
      repeat_report-collected n interval (i + 1) shown (report (shown i) ms).0
      ∙ report-after n i shown ms

  -- The texts of the enabled modules, in their order.
  abbrev pub printed_texts : List (Module S R) → List Effect
  printed_texts [] = []
  printed_texts (m ∷ ms) =
      if m.enable then print_out (until_nul m.record_text) ∷ printed_texts ms else printed_texts ms

  -- Before each of `n` reports from round `i` on the wait, and then the texts of that round.
  abbrev pub all_reports : ℕ → ℕ → ℕ → (ℕ → S) → List (Module S R) → List Effect
  all_reports zero interval i shown ms = []
  all_reports (suc n) interval i shown ms =
      let ms' = map (after_rounds 1 i shown) ms in
      wait_before i interval ++ (printed_texts ms' ++ all_reports n interval (i + 1) shown ms')

  report-texts :
      (i : ℕ) (shown : ℕ → S) (ms : List (Module S R))
      → (report (shown i) ms).1 ≡ printed_texts (map (after_rounds 1 i shown) ms)
  unfolding report collect_record print_mod_record write_record
  report-texts i shown [] = refl
  report-texts i shown (m ∷ ms) = elim (Bool-cases m.enable) [
    | inl on ↦ rw on (ap₂ ◌∷◌ refl (report-texts i shown ms))
    | inr off ↦ rw off (report-texts i shown ms)
  ]

  -- In `n` reports from round `i` on the tool waits for the interval before each report but the one of round
  -- 0, and in each report every enabled module prints once, in the order of the modules, the text
  -- that it has behind that round, up to a NUL in it.
  pub repeat_report-effects :
      (n interval i : ℕ) (shown : ℕ → S) (ms : List (Module S R))
      → (repeat_report n interval i shown ms).1 ≡ all_reports n interval i shown ms
  unfolding repeat_report
  repeat_report-effects zero interval i shown ms = refl
  repeat_report-effects (suc n) interval i shown ms =
      let ms' = (report (shown i) ms).0 in
      let same : ms' ≡ map (after_rounds 1 i shown) ms =
        after-zero (i + 1) shown ms' ∙ report-after 0 i shown ms in
      ap₂ ◌++◌ (pause-wait i interval) (
        ap₂ ◌++◌ (report-texts i shown ms) (
          repeat_report-effects n interval (i + 1) shown ms'
          ∙ ap (all_reports n interval (i + 1) shown) same))
