-- ===== src/Framework/Latest.antt =====
-- The contract of the modules that keep the last answer only, as the tool relies on it.
use zsr.Prelude.{◌≡◌, Option, Bytes}
use zsr.Framework.{Handlers}

-- Behind a collection the handlers show the text of that moment, whatever was collected before.
pub record Latest {S R : Type 0} (h : Handlers S R) : Type 0 where
  pub text : S → Option Bytes
  pub shows : (now : S) (r : R) → h.record_to_str (h.collect_record now r) ≡ text now
