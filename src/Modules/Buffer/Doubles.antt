-- ===== src/Modules/Buffer/Doubles.antt =====
-- The handlers that print doubles leave a text in their buffer that fits, with its NUL.
use zsr.Prelude.{
  ℕ, ◌*◌, ◌≤◌, ◌<◌, Option, none, some, List, [], ◌∷◌, Bytes, length, get_last?, All, arith,
}
use zsr.Double.{Double}
use zsr.Fs.{FsStat, FsNumbers}
use zsr.Cpu.{Cpu}
use zsr.Host.{LoadStat}
use zsr.Proc.{Proc}
use zsr.Io.{Io}
use zsr.Tool.Actions.{new_text}
use zsr.Modules.Print.{cpu_to_str}
use zsr.Modules.Lines.{
  of_sample, fs_line, proc_line, io_line, fs_to_str, load_avg_to_str, proc_to_str, io_to_str,
}
use zsr.Modules.Buffer.{len_1m}
use zsr.Modules.Buffer.Lengths.{
  doubles_line-length, fs_line-length, proc_line-length, io_line-length, ShortDoubles,
}
use zsr.Modules.Buffer.Counts.{AtMost}
use zsr.Modules.Sized.{SizedFs, SizedNumbers, SizedProc, SizedIo}
use zsr.Modules.Sized.Answers.{OfSome}
use zsr.Modules.Buffer.Fitting.{InBuffer, get_last?-OfSome, of_last-InBuffer, of_all-InBuffer}

abbrev Anything : {A : Type 0} → A → Type 0
Anything x = Unit

always : {A : Type 0} (xs : List A) → OfSome Anything (get_last? xs)
always [] = tt
always (x ∷ []) = tt
always (x ∷ y ∷ xs) = always (y ∷ xs)

abbrev pub LastAtMost : {A : Type 0} → ℕ → List (List A) → Type 0
LastAtMost n samples = OfSome (AtMost n) (get_last? samples)

of_sample-InBuffer :
    {A : Type 0} (P : A → Type 0) (line : A → Bytes) (k n : ℕ) (o : Option (List A)) (old : Bytes)
    → ((x : A) → P x → length (line x) ≤ k)
    → OfSome (All P) o
    → OfSome (AtMost n) o
    → k * n < len_1m
    → InBuffer old
    → InBuffer (new_text (of_sample line o) old)
unfolding new_text
of_sample-InBuffer P line k n none old f h few fits g = g
of_sample-InBuffer P line k n (some xs) old f h few fits g =
    of_all-InBuffer P line k n xs old f h few fits g

module _ (D : Double) (short : ShortDoubles D) where
  open D use {F, print_2f}

  pub cpu-InBuffer :
      (xs : List (Cpu F)) (old : Bytes) → InBuffer old → InBuffer (new_text (cpu_to_str D xs) old)
  unfolding cpu_to_str
  cpu-InBuffer xs old g =
      of_last-InBuffer Anything _ (get_last? xs) old
        (λ (c : Cpu F) k. omega (arith, doubles_line-length D short "cpu" c.idle c.util c.wa))
        (always xs) g

  pub load_avg-InBuffer :
      (xs : List (LoadStat F)) (old : Bytes)
      → InBuffer old
      → InBuffer (new_text (load_avg_to_str D xs) old)
  unfolding load_avg_to_str
  load_avg-InBuffer xs old g =
      of_last-InBuffer Anything _ (get_last? xs) old
        (λ (l : LoadStat F) k.
          omega (arith, doubles_line-length D short "load_avg" l.one_min l.five_min l.fifteen_min))
        (always xs) g

  pub fs-InBuffer :
      (held : FsNumbers F) (xs : List (FsStat F)) (old : Bytes)
      → SizedNumbers held
      → All SizedFs xs
      → AtMost 265 xs
      → InBuffer old
      → InBuffer (new_text (fs_to_str D held xs) old)
  unfolding fs_to_str
  fs-InBuffer held xs old n h few g =
      of_all-InBuffer SizedFs (fs_line D held) 3954 265 xs old
        (λ e k. fs_line-length D short held e n k) h few (omega arith) g

  pub proc-InBuffer :
      (samples : List (List (Proc F))) (old : Bytes)
      → All (All SizedProc) samples
      → LastAtMost 835 samples
      → InBuffer old
      → InBuffer (new_text (proc_to_str D samples) old)
  unfolding proc_to_str
  proc-InBuffer samples old h few g =
      of_sample-InBuffer SizedProc (proc_line D) 1255 835 (get_last? samples) old
        (proc_line-length D short) (get_last?-OfSome (All SizedProc) samples h) few (omega arith) g

  pub io-InBuffer :
      (samples : List (List (Io F))) (old : Bytes)
      → All (All SizedIo) samples
      → LastAtMost 252 samples
      → InBuffer old
      → InBuffer (new_text (io_to_str D samples) old)
  unfolding io_to_str
  io-InBuffer samples old h few g =
      of_sample-InBuffer SizedIo (io_line D) 4151 252 (get_last? samples) old
        (io_line-length D short) (get_last?-OfSome (All SizedIo) samples h) few (omega arith) g
