-- ===== src/Modules/Sized.antt =====
-- The types of include/zsr/zsr.h as predicates: a uint64_t is below 2 ^ 64, and a text is no longer than
-- its array; where it is stored with its NUL, it is shorter.
pub mod Readers
pub mod Answers
pub mod Interfaces
pub mod Mounts
pub mod Disks
pub mod Samples
pub mod Processes
pub mod Listing
pub mod Handlers
pub mod Rounds
use zsr.Prelude.{ℕ, ◌≤◌, ◌<◌, Option, none, some, List, [], ◌∷◌, Bytes, length, max_u64, All}
use zsr.Uptime.{Uptime}
use zsr.Meminfo.{MemStat, SwapStat}
use zsr.Network.{RtnlLink}
use zsr.Network.Ip.{Interface}
use zsr.Host.{LoginUser}
use zsr.Fs.{FsStat, FsNumbers}
use zsr.Cpu.{Cpu, CpuStat}
use zsr.Proc.{Proc}
use zsr.Io.{Io, IoStat}

abbrev pub IsU64 : ℕ → Type 0
IsU64 n = n ≤ max_u64

-- A text that `strncpy` has stored in a cleared array of `n` bytes.
abbrev pub IsField : ℕ → Bytes → Type 0
IsField n s = length s ≤ n

pub record SizedUptime (u : Uptime) : Type 0 where
  pub total_sec : IsU64 u.total_sec
  pub year : IsU64 u.year
  pub month : IsU64 u.month
  pub day : IsU64 u.day
  pub hour : IsU64 u.hour
  pub minute : IsU64 u.minute

pub record SizedMem (m : MemStat) : Type 0 where
  pub total_kb : IsU64 m.total_kb
  pub used_kb : IsU64 m.used_kb
  pub free_kb : IsU64 m.free_kb

pub record SizedSwap (m : SwapStat) : Type 0 where
  pub total_kb : IsU64 m.total_kb
  pub used_kb : IsU64 m.used_kb
  pub free_kb : IsU64 m.free_kb

pub record SizedLink (l : RtnlLink) : Type 0 where
  pub dev : IsField 64 l.dev
  pub tx_packet : IsU64 l.tx_packet
  pub rx_packet : IsU64 l.rx_packet
  pub tx_byte : IsU64 l.tx_byte
  pub rx_byte : IsU64 l.rx_byte

pub record SizedInterface (i : Interface) : Type 0 where
  pub dev : IsField 64 i.dev
  pub ip_addr : IsField 64 i.ip_addr
  pub netmask : IsField 64 i.netmask

pub record SizedUser (u : LoginUser) : Type 0 where
  pub user : IsField 32 u.user
  pub tty : IsField 32 u.tty
  pub from : IsField 256 u.from
  pub login_time : IsU64 u.login_time

pub record SizedCpuStat (s : CpuStat) : Type 0 where
  pub user : IsU64 s.user
  pub nice : IsU64 s.nice
  pub sys : IsU64 s.sys
  pub idle : IsU64 s.idle
  pub iowait : IsU64 s.iowait
  pub steal : IsU64 s.steal
  pub hardirq : IsU64 s.hardirq
  pub softirq : IsU64 s.softirq
  pub guest : IsU64 s.guest
  pub number : IsU64 s.number

pub record SizedIoStat (s : IoStat) : Type 0 where
  pub uptime : IsU64 s.uptime
  pub uptime0 : IsU64 s.uptime0
  pub rd_sectors : IsU64 s.rd_sectors
  pub wr_sectors : IsU64 s.wr_sectors
  pub rd_ios : IsU64 s.rd_ios
  pub rd_merges : IsU64 s.rd_merges
  pub wr_ios : IsU64 s.wr_ios
  pub wr_merges : IsU64 s.wr_merges
  pub rd_ticks : IsU64 s.rd_ticks
  pub wr_ticks : IsU64 s.wr_ticks
  pub ios_pgr : IsU64 s.ios_pgr
  pub tot_ticks : IsU64 s.tot_ticks
  pub rq_ticks : IsU64 s.rq_ticks

module _ {F : Type 0} where
  pub record SizedNumbers (n : FsNumbers F) : Type 0 where
    pub total : IsU64 n.total
    pub used : IsU64 n.used
    pub available : IsU64 n.available
    pub inodes : IsU64 n.inodes
    pub iused : IsU64 n.iused
    pub ifree : IsU64 n.ifree

  abbrev pub SizedAssigned : Option (FsNumbers F) → Type 0
  SizedAssigned none = Unit
  SizedAssigned (some n) = SizedNumbers n

  pub record SizedFs (f : FsStat F) : Type 0 where
    pub mnt_fsname : IsField 1024 f.mnt_fsname
    pub mnt_dir : IsField 1024 f.mnt_dir
    pub mnt_type : IsField 32 f.mnt_type
    pub numbers : SizedAssigned f.numbers

  pub record SizedProc (p : Proc F) : Type 0 where
    pub pid : IsU64 p.pid
    pub ppid : IsU64 p.ppid
    pub user : length p.user < 128
    pub group : length p.group < 128
    pub virt_mem_kb : IsU64 p.virt_mem_kb
    pub res_mem_kb : IsU64 p.res_mem_kb
    pub start_time : IsU64 p.start_time
    pub sys_cpu_time : IsU64 p.sys_cpu_time
    pub cpu_time : IsU64 p.cpu_time
    pub cmd : length p.cmd < 256
    pub cmd_path : length p.cmd_path < 1024

  pub record SizedIo (e : Io F) : Type 0 where
    pub dev : length e.dev < 64
    pub read_byte : IsU64 e.read_byte
    pub wrtn_byte : IsU64 e.wrtn_byte
    pub stat : SizedIoStat e.stat
