-- ===== src/Modules/Buffer.antt =====
-- The record buffer of a module, LEN_1M bytes: what the loops of record_to_str store in it by `sprintf` or
-- `snprintf` at `record + ret`. `none` is a write past the end of the buffer.
pub mod Loops
pub mod Lengths
pub mod Counts
pub mod Entries
pub mod Fitting
pub mod Texts
pub mod Doubles
pub mod Few
pub mod Fills
use zsr.Prelude.{
  ℕ, ◌+◌, ◌-◌, Option, none, some, List, [], ◌∷◌, ◌++◌, Bytes, length, ltb, min, if◌then◌else◌,
}
use zsr.Double.{Double}
use zsr.Network.{RtnlLink, take}
use zsr.Network.Ip.{Interface}
use zsr.Host.{LoginUser}
use zsr.Fs.{FsStat, FsNumbers}
use zsr.Proc.{Proc}
use zsr.Io.{Io}
use zsr.Modules.Print.{record_line}
use zsr.Modules.Lines.{ip_line, who_line, network_line, fs_line, proc_line, io_line}

-- LEN_1M.
abbrev pub len_1m : ℕ
len_1m = 1048576

module _ {A : Type 0} (line : A → Bytes) where
  -- `ret += sprintf(record + ret, …)` for each entry: the line and its NUL are stored.
  unfoldable pub sprintf_loop : Bytes → List A → Option Bytes
  sprintf_loop text [] = some text
  sprintf_loop text (x ∷ xs) =
      if ltb (length text + length (line x)) len_1m then sprintf_loop (text ++ line x) xs else none

  -- `ret += snprintf(record + ret, LEN_1M, …)`: at most LEN_1M bytes are stored, the NUL among them,
  -- and the result is the length of the whole line.
  unfoldable pub snprintf_loop : ℕ → Bytes → List A → Option Bytes
  snprintf_loop ret text [] = some text
  snprintf_loop ret text (x ∷ xs) =
      if ltb (ret + min (length (line x)) (len_1m - 1)) len_1m
      then snprintf_loop (ret + length (line x)) (text ++ take (len_1m - 1) (line x)) xs
      else none

-- The loops of the modules.
unfoldable pub fill_dns : List Bytes → Option Bytes
fill_dns entries = sprintf_loop (record_line "dns") [] entries

unfoldable pub fill_ip : List Interface → Option Bytes
fill_ip entries = sprintf_loop ip_line [] entries

unfoldable pub fill_who : List LoginUser → Option Bytes
fill_who entries = snprintf_loop who_line 0 [] entries

unfoldable pub fill_network : List RtnlLink → Option Bytes
fill_network entries = snprintf_loop network_line 0 [] entries

module _ (D : Double) where
  open D use {F}

  unfoldable pub fill_fs : FsNumbers F → List (FsStat F) → Option Bytes
  fill_fs held entries = snprintf_loop (fs_line D held) 0 [] entries

  unfoldable pub fill_proc : List (Proc F) → Option Bytes
  fill_proc entries = sprintf_loop (proc_line D) [] entries

  unfoldable pub fill_io : List (Io F) → Option Bytes
  fill_io entries = snprintf_loop (io_line D) 0 [] entries
