-- ===== src/Modules/Lines.antt =====
-- `record_to_str` of the modules that print texts or lists: mod_dns.c, mod_ip.c, mod_gateway.c, mod_who.c,
-- mod_network.c, mod_fs.c, mod_load_avg.c, mod_time.c, mod_proc.c and mod_io.c. With `none` the buffer is
-- left as it is. The text is the whole one; Modules/Buffer has the loops that store it.
use zsr.Prelude.{
  ℕ, zero, suc, ◌/◌, ◌%◌, ◌==◌, if◌then◌else◌, length, ltb, Option, none, some, List, [], ◌∷◌, ◌++◌,
  Bytes, codes, get_last?,
}
use zsr.Libc.Print.{print_lu}
use zsr.Double.{Double}
use zsr.Network.{RtnlLink}
use zsr.Network.Ip.{Interface, IpVersion, ipv4, ipv6}
use zsr.Host.{LoginUser, LoadStat}
use zsr.Fs.{FsStat, FsNumbers}
use zsr.Proc.{Proc}
use zsr.Io.{Io}
use zsr.Modules.Print.{record_line, comma_list, of_last}

-- Texts with commas in between.
abbrev pub commas : List Bytes → Bytes
commas [] = []
commas (s ∷ []) = s
commas (s ∷ t ∷ ss) = s ++ (codes "," ++ commas (t ∷ ss))

-- The lines of all entries.
abbrev pub each : {A : Type 0} → (A → Bytes) → List A → Bytes
each line [] = []
each line (x ∷ xs) = line x ++ each line xs

-- A list with no entry gives -1.
abbrev pub of_all : {A : Type 0} → (A → Bytes) → List A → Option Bytes
of_all line [] = none
of_all line (x ∷ xs) = some (each line (x ∷ xs))

abbrev pub of_sample : {A : Type 0} → (A → Bytes) → Option (List A) → Option Bytes
of_sample line none = none
of_sample line (some xs) = of_all line xs

unfoldable pub dns_to_str : List Bytes → Option Bytes
dns_to_str entries = of_all (record_line "dns") entries

-- `%d` of the enumerator.
abbrev pub print_version : IpVersion → Bytes
print_version ipv4 = codes "0"
print_version ipv6 = codes "1"

abbrev pub ip_line : Interface → Bytes
ip_line e = record_line "ip" (commas (e.dev ∷ e.ip_addr ∷ e.netmask ∷ print_version e.ip_ver ∷ []))

unfoldable pub ip_to_str : List Interface → Option Bytes
ip_to_str entries = of_all ip_line entries

unfoldable pub gateway_to_str : List Bytes → Option Bytes
gateway_to_str entries = of_last (record_line "gateway") (get_last? entries)

-- The bytes of a number in memory, the lowest first, up to one that is 0, and eight at most.
abbrev pub memory_text : ℕ → ℕ → Bytes
memory_text zero n = []
memory_text (suc k) n =
    let rest = memory_text k (n / 256) in if n % 256 == 0 then [] else n % 256 ∷ rest

-- What `%s` prints of an array of `n` bytes that `strncpy` has filled with `s`: without a NUL in the array it
-- reads on in what stands behind it.
abbrev pub array_text : ℕ → Bytes → Bytes → Bytes
array_text n s behind = if ltb (length s) n then s else s ++ behind

-- The arrays of `login_user_t` stand one behind the other, and `login_time` behind them.
abbrev pub from_text : LoginUser → Bytes
from_text e = array_text 256 e.from (memory_text 8 e.login_time)

abbrev pub tty_text : LoginUser → Bytes
tty_text e = array_text 32 e.tty (from_text e)

abbrev pub user_text : LoginUser → Bytes
user_text e = array_text 32 e.user (tty_text e)

abbrev pub who_line : LoginUser → Bytes
who_line e =
    record_line "who" (commas (user_text e ∷ tty_text e ∷ from_text e ∷ print_lu e.login_time ∷ []))

unfoldable pub who_to_str : List LoginUser → Option Bytes
who_to_str entries = of_all who_line entries

abbrev pub network_line : RtnlLink → Bytes
network_line e =
    record_line "network"
      (e.dev ++ (codes "," ++ comma_list (e.tx_packet ∷ e.rx_packet ∷ e.tx_byte ∷ e.rx_byte ∷ [])))

unfoldable pub network_to_str : List RtnlLink → Option Bytes
network_to_str entries = of_all network_line entries

unfoldable pub time_to_str : List ℕ → Option Bytes
time_to_str entries = of_last (λ t. record_line "time" (print_lu t)) (get_last? entries)

module _ (D : Double) where
  open D use {F, of_u64, div, print_2f}

  -- The numbers of a file system. Where nothing was assigned to them, they are what the memory of the
  -- node held before.
  abbrev pub fs_numbers_or : FsNumbers F → Option (FsNumbers F) → FsNumbers F
  fs_numbers_or held none = held
  fs_numbers_or held (some n) = n

  abbrev pub fs_texts : FsNumbers F → List Bytes
  fs_texts n =
      print_lu n.total
      ∷ print_lu n.used
      ∷ print_lu n.available
      ∷ print_2f n.util
      ∷ print_lu n.inodes
      ∷ print_lu n.iused
      ∷ print_lu n.ifree
      ∷ print_2f n.iutil
      ∷ []

  -- The arrays of `fs_stat_t` stand one behind the other, and `total` behind them.
  abbrev pub type_text : FsNumbers F → FsStat F → Bytes
  type_text held e = array_text 32 e.mnt_type (memory_text 8 (fs_numbers_or held e.numbers).total)

  abbrev pub dir_text : FsNumbers F → FsStat F → Bytes
  dir_text held e = array_text 1024 e.mnt_dir (type_text held e)

  abbrev pub fsname_text : FsNumbers F → FsStat F → Bytes
  fsname_text held e = array_text 1024 e.mnt_fsname (dir_text held e)

  abbrev pub fs_line : FsNumbers F → FsStat F → Bytes
  fs_line held e = record_line "fs" (
      commas (
        fsname_text held e
        ∷ dir_text held e
        ∷ type_text held e
        ∷ fs_texts (fs_numbers_or held e.numbers)))

  unfoldable pub fs_to_str : FsNumbers F → List (FsStat F) → Option Bytes
  fs_to_str held entries = of_all (fs_line held) entries

  -- A `float` is passed on as a `double`.
  unfoldable pub load_avg_to_str : List (LoadStat F) → Option Bytes
  load_avg_to_str entries =
      of_last
        (λ (l : LoadStat F).
          record_line "load_avg"
            (commas (print_2f l.one_min ∷ print_2f l.five_min ∷ print_2f l.fifteen_min ∷ [])))
        (get_last? entries)

  -- The group is printed, and `cmd_path` is not.
  abbrev pub proc_line : Proc F → Bytes
  proc_line p = record_line "proc" (
      commas (
        print_lu p.pid
        ∷ (p.state ∷ [])
        ∷ print_lu p.ppid
        ∷ p.user
        ∷ p.group
        ∷ print_lu p.virt_mem_kb
        ∷ print_lu p.res_mem_kb
        ∷ print_2f p.mem_util
        ∷ print_lu p.start_time
        ∷ print_2f p.cpu_util
        ∷ p.cmd
        ∷ []))

  -- The entries of the last sample; for a sample with none, nothing is written.
  unfoldable pub proc_to_str : List (List (Proc F)) → Option Bytes
  proc_to_str samples = of_sample proc_line (get_last? samples)

  abbrev pub io_line : Io F → Bytes
  io_line e = record_line "io" (
      commas (
        e.dev
        ∷ print_2f e.tps
        ∷ print_2f (div e.util (of_u64 10))
        ∷ print_2f e.rrqm_per_sec
        ∷ print_2f e.wrqm_per_sec
        ∷ print_2f e.r_per_sec
        ∷ print_2f e.w_per_sec
        ∷ print_2f e.r_speed_per_sec
        ∷ print_2f e.w_speed_per_sec
        ∷ print_2f e.avgrq_sz
        ∷ print_2f e.avgqu_sz
        ∷ print_2f e.await
        ∷ print_2f e.r_await
        ∷ print_2f e.w_await
        ∷ []))

  unfoldable pub io_to_str : List (List (Io F)) → Option Bytes
  io_to_str samples = of_sample io_line (get_last? samples)
