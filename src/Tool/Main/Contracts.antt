-- ===== src/Tool/Main/Contracts.antt =====
-- What every module keeps through the actions of the tool, if its handlers keep it.
use zsr.Prelude.{
  ◌≡◌, refl, Bool, true, false, Option, none, some, List, [], ◌∷◌, Bytes, same_text, All,
  if◌then◌else◌,
}
use zsr.Framework.{Module}
use zsr.Tool.Actions.{
  Effect, print_out, print_err, sleep, Outcome, behind, returned, exited, ◌>>=◌, collect_record,
  enable_first, exit_unless, enable_all_module, until_nul, new_text, write_record, print_mod_record,
}
use zsr.Tool.Main.{report}

-- A contract of one module: `P` holds of its record list and `T` of its text, when the system shows what
-- `Q` says.
pub record Keeps {S R : Type 0} (Q : S → Type 0) (P : R → Type 0) (T : Bytes → Type 0)
    (m : Module S R) : Type 0 where
  pub records : P m.record_list
  pub text : T m.record_text
  pub collect : (now : S) (r : R) → Q now → P r → P (m.handlers.collect_record now r)
  pub print : (r : R) (old : Bytes) → P r → T old → T (new_text (m.handlers.record_to_str r) old)

-- What a run prints is what `%s` prints of such a text.
abbrev pub Prints : (Bytes → Type 0) → Effect → Type 0
Prints T (print_out t) = (text : Bytes) × T text × (t ≡ until_nul text)
Prints T (print_err t) = Unit
Prints T (sleep n) = Unit

abbrev pub OfReturned : {A : Type 0} → (A → Type 0) → Outcome A → Type 0
OfReturned P (returned a es) = P a
OfReturned P (exited es) = Unit

pub if_both :
    {A : Type 0} (P : A → Type 0) (b : Bool) (x y : A) → P x → P y → P (if b then x else y)
if_both P true x y h g = h
if_both P false x y h g = g

pub OfReturned-bind :
    {A B : Type 0} (P : A → Type 0) (Q : B → Type 0) (m : Outcome A) (f : A → Outcome B)
    → OfReturned P m
    → ((a : A) → P a → OfReturned Q (f a))
    → OfReturned Q (m >>= f)
OfReturned-bind P Q (exited es) f h g = tt
OfReturned-bind {B} P Q (returned a es) f h g = behind_lem (f a) (g a h)
  where
    behind_lem : (o : Outcome B) → OfReturned Q o → OfReturned Q (behind es o)
    behind_lem (returned b fs) k = k
    behind_lem (exited fs) k = tt

module _ {S R : Type 0} (Q : S → Type 0) (P : R → Type 0) (T : Bytes → Type 0) where
  abbrev pub AllKeep : List (Module S R) → Type 0
  AllKeep = All (Keeps Q P T)

  pub collect_record-Keeps :
      (now : S) (ms : List (Module S R)) → Q now → AllKeep ms → AllKeep (collect_record now ms)
  unfolding collect_record
  collect_record-Keeps now [] q h = tt
  collect_record-Keeps now (m ∷ ms) q (k, h) = (
    record {
      records = k.collect now m.record_list q k.records;
      text = k.text;
      collect = k.collect;
      print = k.print;
    },
    collect_record-Keeps now ms q h,
  )

  write_record-Keeps : (m : Module S R) → Keeps Q P T m → Keeps Q P T (write_record m)
  unfolding write_record
  write_record-Keeps m k = record {
    records = k.records;
    text = k.print m.record_list m.record_text k.records k.text;
    collect = k.collect;
    print = k.print;
  }

  print_mod_record-Keeps :
      (ms : List (Module S R))
      → AllKeep ms
      → AllKeep (print_mod_record ms).0 × All (Prints T) (print_mod_record ms).1
  unfolding print_mod_record
  print_mod_record-Keeps [] h = (tt, tt)
  print_mod_record-Keeps (m ∷ ms) (k, h) =
      let (keep, out) = print_mod_record-Keeps ms h in
      if_both (λ (p : List (Module S R) × List Effect). AllKeep p.0 × All (Prints T) p.1) m.enable
        (
          write_record m ∷ (print_mod_record ms).0,
          print_out (until_nul (write_record m).record_text) ∷ (print_mod_record ms).1,
        )
        (m ∷ (print_mod_record ms).0, (print_mod_record ms).1)
        ((write_record-Keeps m k, keep), ((_, (write_record-Keeps m k).text, refl), out))
        ((k, keep), out)

  pub report-Keeps :
      (now : S) (ms : List (Module S R))
      → Q now
      → AllKeep ms
      → AllKeep (report now ms).0 × All (Prints T) (report now ms).1
  unfolding report
  report-Keeps now ms q h =
      print_mod_record-Keeps (collect_record now ms) (collect_record-Keeps now ms q h)

  enabled-Keeps : (m : Module S R) → Keeps Q P T m → Keeps Q P T (record m { enable = true })
  enabled-Keeps m k = record {
    records = k.records;
    text = k.text;
    collect = k.collect;
    print = k.print;
  }

  abbrev OfFound : Option (List (Module S R)) → Type 0
  OfFound none = Unit
  OfFound (some ms) = AllKeep ms

  behind_first-Keeps :
      (m : Module S R) (o : Option (List (Module S R)))
      → Keeps Q P T m
      → OfFound o
      → OfFound
          (elim o as (λ x. Option (List (Module S R))) [ none ↦ none | some ms' ↦ some (m ∷ ms') ])
  behind_first-Keeps m none k h = tt
  behind_first-Keeps m (some ms) k h = (k, h)

  pub enable_first-Keeps :
      (mod_opt : Bytes) (ms : List (Module S R)) → AllKeep ms → OfFound (enable_first mod_opt ms)
  unfolding enable_first
  enable_first-Keeps mod_opt [] h = tt
  enable_first-Keeps mod_opt (m ∷ ms) (k, h) =
      if_both OfFound (same_text m.opt_line mod_opt) _ _ (enabled-Keeps m k, h)
        (behind_first-Keeps m (enable_first mod_opt ms) k (enable_first-Keeps mod_opt ms h))

  pub exit_unless-Keeps :
      (mod_opt : Bytes) (o : Option (List (Module S R)))
      → OfFound o
      → OfReturned AllKeep (exit_unless mod_opt o)
  unfolding exit_unless
  exit_unless-Keeps mod_opt none h = tt
  exit_unless-Keeps mod_opt (some ms) h = h

  pub enable_all-Keeps : (ms : List (Module S R)) → AllKeep ms → AllKeep (enable_all_module ms)
  unfolding enable_all_module
  enable_all-Keeps [] h = tt
  enable_all-Keeps (m ∷ ms) (k, h) = (enabled-Keeps m k, enable_all-Keeps ms h)
