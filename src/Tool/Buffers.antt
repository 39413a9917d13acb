-- ===== src/Tool/Buffers.antt =====
-- The whole program, for any command line: the records stay within their types, and the record buffers
-- are never overrun while the system shows few entries.
use zsr.Prelude.{Bytes}
use zsr.Double.{Double}
use zsr.Modules.Handlers.{SystemView, Records}
use zsr.Modules.Sized.Handlers.{SizedRecords, SizedView}
use zsr.Modules.Buffer.Few.{FewView, FewRecords}
use zsr.Tool.Main.Kept.{Kept}

infixr 4 ◌&◌
abbrev ◌&◌ : {A B : Type 0} → A → B → A × B
a & b = (a, b)

abbrev AnyText : Bytes → Type 0
AnyText text = Unit

abbrev GoodView : SystemView → Type 0
GoodView s = SizedView s × FewView s

abbrev GoodRecords : {F : Type 0} → Records F → Type 0
GoodRecords r = SizedRecords r × FewRecords r
