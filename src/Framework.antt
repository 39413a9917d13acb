-- ===== src/Framework.antt =====
-- zsr/framework.h and zsr/framework.c: the list of modules. A module's function pointers are a record
-- of handlers over the content of its record list (`R`) and what the system shows at one moment (`S`);
-- the list links are left out, and the memory is in Tool/Release.
pub mod Catalogue
pub mod Loading
pub mod Latest
use zsr.Prelude.{ℕ, Bool, false, Option, List, [], ◌∷◌, ◌++◌, Bytes}

pub record Handlers (S R : Type 0) : Type 0 where
  pub collect_record : S → R → R
  -- the text that it writes to `record`; `none`: it returns -1 and writes nothing
  pub record_to_str : R → Option Bytes
  pub empty : R
  -- whether `collect_record` has not returned: the process has ended, or its behaviour is undefined
  pub ended : R → Bool

pub record Module (S R : Type 0) : Type 0 where
  pub name : Bytes
  pub opt_line : Bytes
  pub usage : Bytes
  pub enable : Bool
  pub record_text : Bytes
  pub record_list : R
  pub num_col : ℕ
  pub info : List Bytes
  pub handlers : Handlers S R

module _ {S R : Type 0} where
  -- The new module is disabled and has no record, and it comes last.
  unfoldable pub register_mod_fileds :
      Bytes → List Bytes → Bytes → Bytes → ℕ → Handlers S R → List (Module S R) → List (Module S R)
  register_mod_fileds name info opt usage num_col handlers mods =
      mods
      ++ record {
        name = name;
        opt_line = opt;
        usage = usage;
        enable = false;
        record_text = [];
        record_list = handlers.empty;
        num_col = num_col;
        info = info;
        handlers = handlers;
      }
        ∷ []
