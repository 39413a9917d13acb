-- ===== src/Tool/Main/Latest.antt =====
-- Reports of one enabled module that keeps the last answer only: whatever its record list is, they are
-- those of a machine that remembers nothing but the text it printed last.
use zsr.Prelude.{
  ℕ, zero, suc, ◌+◌, ◌≡◌, refl, ap, ◌∙◌, true, false, Option, List, [], ◌∷◌, ◌++◌, Bytes, All,
}
use zsr.Framework.{Handlers, Module}
use zsr.Framework.Latest.{Latest}
use zsr.Tool.Actions.{
  Effect, print_out, print_mod_record, collect_record, until_nul, new_text, write_record,
}
use zsr.Tool.Main.{report, pause}
use zsr.Tool.Main.Rounds.{repeat_report, wait_before, pause-wait}

-- The reports of the abstract machine: a moment with no text repeats the text before. `%s` prints up to a NUL.
abbrev pub latest_reports :
    {S : Type 0} → (S → Option Bytes) → ℕ → ℕ → ℕ → (ℕ → S) → Bytes → List Effect
latest_reports text zero interval i shown old = []
latest_reports text (suc n) interval i shown old =
    let new = new_text (text (shown i)) old in
    wait_before i interval
    ++ ((print_out (until_nul new) ∷ []) ++ latest_reports text n interval (i + 1) shown new)

module _ {S R : Type 0} where
  abbrev pub IsDisabled : Module S R → Type 0
  IsDisabled m = m.enable ≡ false

  collect_record-append :
      (now : S) (xs ys : List (Module S R))
      → collect_record now (xs ++ ys) ≡ collect_record now xs ++ collect_record now ys
  unfolding collect_record
  collect_record-append now [] ys = refl
  collect_record-append now (x ∷ xs) ys =
      ap (λ t. (record x { record_list = x.handlers.collect_record now x.record_list }) ∷ t)
        (collect_record-append now xs ys)

  collect_record-IsDisabled :
      (now : S) (ms : List (Module S R))
      → All IsDisabled ms
      → All IsDisabled (collect_record now ms)
  unfolding collect_record
  collect_record-IsDisabled now [] h = tt
  collect_record-IsDisabled now (m ∷ ms) (off, h) = (off, collect_record-IsDisabled now ms h)

  print_mod_record-IsDisabled :
      (ms : List (Module S R)) → All IsDisabled ms → print_mod_record ms ≡ (ms, [])
  unfolding print_mod_record
  print_mod_record-IsDisabled [] h = refl
  print_mod_record-IsDisabled (m ∷ ms) (off, h) = rw (off, print_mod_record-IsDisabled ms h) refl

  print_mod_record-one :
      (before : List (Module S R)) (m : Module S R) (after : List (Module S R))
      → All IsDisabled before
      → m.enable ≡ true
      → All IsDisabled after
      → print_mod_record (before ++ m ∷ after) ≡ (
        before ++ write_record m ∷ after,
        print_out (until_nul (write_record m).record_text) ∷ [],
      )
  unfolding print_mod_record
  print_mod_record-one [] m after hb on ha = rw (on, print_mod_record-IsDisabled after ha) refl
  print_mod_record-one (b ∷ before) m after (off, hb) on ha =
      rw (off, print_mod_record-one before m after hb on ha) refl

  -- The module behind a report.
  reported : S → Module S R → Module S R
  reported now m =
      write_record (record m { record_list = m.handlers.collect_record now m.record_list })

  report-one :
      (now : S) (before : List (Module S R)) (m : Module S R) (after : List (Module S R))
      → All IsDisabled before
      → m.enable ≡ true
      → All IsDisabled after
      → report now (before ++ m ∷ after) ≡ (
        collect_record now before ++ reported now m ∷ collect_record now after,
        print_out (until_nul (reported now m).record_text) ∷ [],
      )
  unfolding report reported
  report-one now before m after hb on ha =
      ap print_mod_record (collect_record-append now before (m ∷ after))
      ∙ print_mod_record-one (collect_record now before) _ (collect_record now after)
          (collect_record-IsDisabled now before hb) on (collect_record-IsDisabled now after ha)

  reported-text :
      (h : Handlers S R) (c : Latest h) (now : S) (m : Module S R)
      → m.handlers ≡ h
      → (reported now m).record_text ≡ new_text (c.text now) m.record_text
  unfolding reported write_record
  reported-text h c now m e =
      ap
        (λ (k : Handlers S R).
          new_text (k.record_to_str (k.collect_record now m.record_list)) m.record_text)
        e
      ∙ ap (λ t. new_text t m.record_text) (c.shows now m.record_list)

  -- Where one module is enabled and meets the contract of a module that keeps the last answer, `n`
  -- reports print, with the wait before each but that of round 0, what the abstract machine prints: at each moment the text
  -- of that moment, or, where there is none, the text before again, up to its first NUL.
  pub repeat_report-latest :
      (h : Handlers S R) (c : Latest h) (n interval i : ℕ) (shown : ℕ → S)
      (before : List (Module S R)) (m : Module S R) (after : List (Module S R))
      → m.handlers ≡ h
      → All IsDisabled before
      → m.enable ≡ true
      → All IsDisabled after
      → (repeat_report n interval i shown (before ++ m ∷ after)).1
        ≡ latest_reports c.text n interval i shown m.record_text
  unfolding repeat_report reported write_record
  repeat_report-latest h c zero interval i shown before m after e hb on ha = refl
  repeat_report-latest h c (suc n) interval i shown before m after e hb on ha =
      ap (λ p. pause i interval ++ (p.1 ++ (repeat_report n interval (i + 1) shown p.0).1))
        (report-one (shown i) before m after hb on ha)
      ∙ ap
          (λ t.
            pause i interval
            ++ ((print_out (until_nul (reported (shown i) m).record_text) ∷ []) ++ t))
          (repeat_report-latest h c n interval (i + 1) shown (collect_record (shown i) before)
            (reported (shown i) m) (collect_record (shown i) after) e
            (collect_record-IsDisabled (shown i) before hb) on
            (collect_record-IsDisabled (shown i) after ha))
      ∙ ap
          (λ t.
            pause i interval
            ++ ((print_out (until_nul t) ∷ []) ++ latest_reports c.text n interval (i + 1) shown t))
          (reported-text h c (shown i) m e)
      ∙ ap
          (λ w.
            w
            ++ ((print_out (until_nul (new_text (c.text (shown i)) m.record_text)) ∷ [])
                ++ latest_reports c.text n interval (i + 1) shown
                    (new_text (c.text (shown i)) m.record_text)))
          (pause-wait i interval)
