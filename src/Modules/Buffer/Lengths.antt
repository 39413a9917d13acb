-- ===== src/Modules/Buffer/Lengths.antt =====
-- The length of a printed line, from the sizes of the fields.
use zsr.Prelude.{
  ℕ, zero, suc, ◌/◌, ◌+◌, ◌*◌, ◌≤◌, ◌≡◌, refl, Option, none, some, List, [], ◌∷◌, ◌++◌, Bytes,
  String, codes, length, length-append, All, arith,
}
use native.Mathlib.Nat.{mul-suc}
use zsr.Libc.Print.{print_lu}
use zsr.Libc.Print.Length.{print_lu-length, print_lu-some}
use zsr.Double.{Double}
use zsr.Network.{RtnlLink}
use zsr.Network.Ip.{IpVersion, Interface, ipv4, ipv6}
use zsr.Host.{LoginUser}
use zsr.Fs.{FsStat, FsNumbers}
use zsr.Proc.{Proc}
use zsr.Io.{Io}
use zsr.Modules.Print.{comma_list, record_line}
use zsr.Modules.Lines.{
  memory_text, array_text, from_text, tty_text, user_text, type_text, dir_text, fsname_text, commas,
  each, print_version, fs_texts, fs_numbers_or, ip_line, who_line, network_line, fs_line, proc_line,
  io_line,
}
use zsr.Modules.Sized.{
  IsU64, SizedInterface, SizedUser, SizedLink, SizedFs, SizedNumbers, SizedAssigned, SizedProc,
  SizedIo,
}

-- The texts with a comma each.
abbrev with_commas : List Bytes → ℕ
with_commas [] = 0
with_commas (s ∷ ss) = length s + 1 + with_commas ss

commas-length : (ss : List Bytes) → length (commas ss) ≤ with_commas ss
commas-length [] = omega arith
commas-length (s ∷ []) = omega arith
commas-length (s ∷ t ∷ ss) =
    omega (arith, length-append s (codes "," ++ commas (t ∷ ss)), commas-length (t ∷ ss))

comma_list-length : (ns : List ℕ) → All IsU64 ns → length (comma_list ns) ≤ 21 * length ns
comma_list-length [] h = omega arith
comma_list-length (n ∷ []) (f, h) = omega (arith, print_lu-length n f)
comma_list-length (n ∷ m ∷ ns) (f, h) = omega (
  arith,
  length-append (print_lu n) (codes "," ++ comma_list (m ∷ ns)),
  print_lu-length n f,
  comma_list-length (m ∷ ns) h,
)

record_line-length :
    (name : String) (values : Bytes)
    → length (record_line name values) ≡ length (codes name) + length values + 3
record_line-length name values = omega (
  arith,
  length-append (codes name) (codes "=" ++ (values ++ codes ";\n")),
  length-append values (codes ";\n"),
)

pub each-length :
    {A : Type 0} (line : A → Bytes) (k : ℕ) (xs : List A)
    → All (λ x. length (line x) ≤ k) xs
    → length (each line xs) ≤ k * length xs
each-length line k [] h = omega arith
each-length line k (x ∷ xs) (f, h) =
    omega
      (arith, length-append (line x) (each line xs), each-length line k xs h, mul-suc k (length xs))

line-length :
    (name : String) (ss : List Bytes)
    → length (record_line name (commas ss)) ≤ length (codes name) + with_commas ss + 3
line-length name ss = omega (arith, record_line-length name (commas ss), commas-length ss)

pub text_line-length :
    (name : String) (s : Bytes) → length (record_line name s) ≡ length (codes name) + length s + 3
text_line-length name s = record_line-length name s

pub numbers_line-length :
    (name : String) (ns : List ℕ)
    → All IsU64 ns
    → length (record_line name (comma_list ns)) ≤ length (codes name) + 21 * length ns + 3
numbers_line-length name ns h =
    omega (arith, record_line-length name (comma_list ns), comma_list-length ns h)

print_version-length : (v : IpVersion) → length (print_version v) ≡ 1
print_version-length ipv4 = refl
print_version-length ipv6 = refl

pub ip_line-length : (e : Interface) → SizedInterface e → length (ip_line e) ≤ 202
ip_line-length e h = omega (
  arith,
  line-length "ip" (e.dev ∷ e.ip_addr ∷ e.netmask ∷ print_version e.ip_ver ∷ []),
  print_version-length e.ip_ver,
)

memory_text-length : (k n : ℕ) → length (memory_text k n) ≤ k
memory_text-length zero n = omega arith
memory_text-length (suc k) n = ground (arith, memory_text-length k (n / 256))

array_text-length :
    (n k : ℕ) (s behind : Bytes)
    → length s ≤ n
    → length behind ≤ k
    → length (array_text n s behind) ≤ n + k
array_text-length n k s behind h g = ground (arith, length-append s behind)

from_text-length : (e : LoginUser) → SizedUser e → length (from_text e) ≤ 264
from_text-length e h =
    array_text-length 256 8 e.from (memory_text 8 e.login_time) h.from
      (memory_text-length 8 e.login_time)

tty_text-length : (e : LoginUser) → SizedUser e → length (tty_text e) ≤ 296
tty_text-length e h = array_text-length 32 264 e.tty (from_text e) h.tty (from_text-length e h)

user_text-length : (e : LoginUser) → SizedUser e → length (user_text e) ≤ 328
user_text-length e h = array_text-length 32 296 e.user (tty_text e) h.user (tty_text-length e h)

pub who_line-length : (e : LoginUser) → SizedUser e → length (who_line e) ≤ 918
who_line-length e h = omega (
  arith,
  line-length "who" (user_text e ∷ tty_text e ∷ from_text e ∷ print_lu e.login_time ∷ []),
  user_text-length e h,
  tty_text-length e h,
  from_text-length e h,
  print_lu-length e.login_time h.login_time,
)

pub network_line-length : (e : RtnlLink) → SizedLink e → length (network_line e) ≤ 159
network_line-length e h =
    let ns : List ℕ = e.tx_packet ∷ e.rx_packet ∷ e.tx_byte ∷ e.rx_byte ∷ [] in
    omega (
      arith,
      record_line-length "network" (e.dev ++ (codes "," ++ comma_list ns)),
      length-append e.dev (codes "," ++ comma_list ns),
      comma_list-length ns (h.tx_packet, (h.rx_packet, (h.tx_byte, (h.rx_byte, tt)))),
    )

-- Every `double` is printed with 313 bytes at most by "%.2f": 309 digits, a sign, a point and two decimals.
abbrev pub ShortDoubles : Double → Type 0
ShortDoubles D = (x : D.F) → length (D.print_2f x) ≤ 313

module _ (D : Double) (short : ShortDoubles D) where
  open D use {F, print_2f, of_u64, div}

  pub doubles_line-length :
      (name : String) (a b c : F)
      → length (record_line name (commas (print_2f a ∷ print_2f b ∷ print_2f c ∷ [])))
        ≤ length (codes name) + 945
  doubles_line-length name a b c = omega (
    arith,
    line-length name (print_2f a ∷ print_2f b ∷ print_2f c ∷ []),
    short a,
    short b,
    short c,
  )

  fs_texts-length : (n : FsNumbers F) → SizedNumbers n → with_commas (fs_texts D n) ≤ 754
  fs_texts-length n h = omega (
    arith,
    print_lu-length n.total h.total,
    print_lu-length n.used h.used,
    print_lu-length n.available h.available,
    short n.util,
    print_lu-length n.inodes h.inodes,
    print_lu-length n.iused h.iused,
    print_lu-length n.ifree h.ifree,
    short n.iutil,
  )

  fs_numbers_or-Sized :
      (held : FsNumbers F) (o : Option (FsNumbers F))
      → SizedNumbers held
      → SizedAssigned o
      → SizedNumbers (fs_numbers_or D held o)
  fs_numbers_or-Sized held none h g = h
  fs_numbers_or-Sized held (some n) h g = g

  pub fs_line-length :
      (held : FsNumbers F) (e : FsStat F)
      → SizedNumbers held
      → SizedFs e
      → length (fs_line D held e) ≤ 3954
  fs_line-length held e g h =
      let n : FsNumbers F = fs_numbers_or D held e.numbers in
      let kind : length (type_text D held e) ≤ 40 =
        array_text-length 32 8 e.mnt_type (memory_text 8 n.total) h.mnt_type
          (memory_text-length 8 n.total) in
      let dir : length (dir_text D held e) ≤ 1064 =
        array_text-length 1024 40 e.mnt_dir (type_text D held e) h.mnt_dir kind in
      let fsname : length (fsname_text D held e) ≤ 2088 =
        array_text-length 1024 1064 e.mnt_fsname (dir_text D held e) h.mnt_fsname dir in
      omega (
        arith,
        kind,
        dir,
        fsname,
        line-length "fs"
            (fsname_text D held e ∷ dir_text D held e ∷ type_text D held e ∷ fs_texts D n),
        fs_texts-length n (fs_numbers_or-Sized held e.numbers g h.numbers),
      )

  pub proc_line-length : (p : Proc F) → SizedProc p → length (proc_line D p) ≤ 1255
  proc_line-length p h = omega (
    arith,
    line-length "proc" (
        print_lu p.pid
        ∷ (p.state ∷ [])
        ∷ print_lu p.ppid
        ∷ p.user
        ∷ p.group
        ∷ print_lu p.virt_mem_kb
        ∷ print_lu p.res_mem_kb
        ∷ print_2f p.mem_util
        ∷ print_lu p.start_time
        ∷ print_2f p.cpu_util
        ∷ p.cmd
        ∷ []),
    print_lu-length p.pid h.pid,
    print_lu-length p.ppid h.ppid,
    print_lu-length p.virt_mem_kb h.virt_mem_kb,
    print_lu-length p.res_mem_kb h.res_mem_kb,
    short p.mem_util,
    print_lu-length p.start_time h.start_time,
    short p.cpu_util,
  )

  pub io_line-length : (e : Io F) → SizedIo e → length (io_line D e) ≤ 4151
  io_line-length e h = omega (
    arith,
    line-length "io" (
        e.dev
        ∷ print_2f e.tps
        ∷ print_2f (div e.util (of_u64 10))
        ∷ print_2f e.rrqm_per_sec
        ∷ print_2f e.wrqm_per_sec
        ∷ print_2f e.r_per_sec
        ∷ print_2f e.w_per_sec
        ∷ print_2f e.r_speed_per_sec
        ∷ print_2f e.w_speed_per_sec
        ∷ print_2f e.avgrq_sz
        ∷ print_2f e.avgqu_sz
        ∷ print_2f e.await
        ∷ print_2f e.r_await
        ∷ print_2f e.w_await
        ∷ []),
    short e.tps,
    short (div e.util (of_u64 10)),
    short e.rrqm_per_sec,
    short e.wrqm_per_sec,
    short e.r_per_sec,
    short e.w_per_sec,
    short e.r_speed_per_sec,
    short e.w_speed_per_sec,
    short e.avgrq_sz,
    short e.avgqu_sz,
    short e.await,
    short e.r_await,
    short e.w_await,
  )

commas-exact : (s : Bytes) (ss : List Bytes) → 1 + length (commas (s ∷ ss)) ≡ with_commas (s ∷ ss)
commas-exact s [] = omega arith
commas-exact s (t ∷ ss) =
    omega (arith, length-append s (codes "," ++ commas (t ∷ ss)), commas-exact t ss)

-- Every line of a process has 23 bytes at least.
pub proc_line-above : (D : Double) (p : Proc D.F) → 23 ≤ length (proc_line D p)
proc_line-above D p =
    let rest : List Bytes =
      (p.state ∷ [])
      ∷ print_lu p.ppid
      ∷ p.user
      ∷ p.group
      ∷ print_lu p.virt_mem_kb
      ∷ print_lu p.res_mem_kb
      ∷ D.print_2f p.mem_util
      ∷ print_lu p.start_time
      ∷ D.print_2f p.cpu_util
      ∷ p.cmd
      ∷ [] in
    omega (
      arith,
      record_line-length "proc" (commas (print_lu p.pid ∷ rest)),
      commas-exact (print_lu p.pid) rest,
      print_lu-some p.pid,
      print_lu-some p.ppid,
      print_lu-some p.virt_mem_kb,
      print_lu-some p.res_mem_kb,
      print_lu-some p.start_time,
    )
