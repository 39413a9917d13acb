-- ===== src/Modules/Sized/Samples.antt =====
-- The samples of mod_cpu.c and mod_io.c.
use zsr.Prelude.{
  ℕ, ◌<◌, inl, inr, Option, none, some, List, [], ◌∷◌, Bytes, length, same_text, All, Bool-cases,
  sub64, arith,
}
use zsr.Libc.Lines.{lines}
use zsr.Log.{LogCall}
use zsr.Double.{Double}
use zsr.Cpu.{zero_cpu_stat}
use zsr.Cpu.Count.{Count, get_num_of_cpu}
use zsr.Io.{Io, IoStat, compute_entry, compute_against, compute_io_stat}
use zsr.Io.Clock.{get_cpu_time_in_jiffies}
use zsr.Io.Listing.{
  IoSystem, DiskScan, overflow, other, converted, scan_disk, Listing, listed, exited, undefined,
  put, log_before, unknown_diskstats, to_uint, disk_stat, disk_entry, uptime0_of, read_disks,
  read_diskstats, with_ticks, with_count, read_io_stat,
}
use zsr.Modules.Sized.{IsU64, SizedCpuStat, SizedIoStat, SizedIo}
use zsr.Modules.Sized.Answers.{OfSome}
use zsr.Modules.Sized.Disks.{
  Scanned, disk_stat-Sized, get_cpu_time-range, scan_disk-Scanned, uptime0_of-range,
}

pub zero_cpu_stat-Sized : SizedCpuStat zero_cpu_stat
zero_cpu_stat-Sized = record {
  user = omega arith;
  nice = omega arith;
  sys = omega arith;
  idle = omega arith;
  iowait = omega arith;
  steal = omega arith;
  hardirq = omega arith;
  softirq = omega arith;
  guest = omega arith;
  number = omega arith;
}

abbrev pub SizedListing : {F : Type 0} → Listing F → Type 0
SizedListing (listed es logs) = All SizedIo es
SizedListing (exited logs) = Unit
SizedListing undefined = Unit

put-Sized :
    {F : Type 0} (e : Io F) (r : Listing F) → SizedIo e → SizedListing r → SizedListing (put e r)
put-Sized e (listed es logs) h hs = (h, hs)
put-Sized e (exited logs) h hs = tt
put-Sized e undefined h hs = tt

log_before-Sized :
    {F : Type 0} (logs : List LogCall) (r : Listing F)
    → SizedListing r
    → SizedListing (log_before logs r)
log_before-Sized logs (listed es more) h = h
log_before-Sized logs (exited more) h = tt
log_before-Sized logs undefined h = tt

module _ (D : Double) where
  open D use {F}

  disk_entry-Sized :
      (dev : Bytes) (stat : IoStat)
      → length dev < 64
      → SizedIoStat stat
      → SizedIo (disk_entry D dev stat)
  disk_entry-Sized dev stat short h = record {
    dev = short;
    read_byte = omega arith;
    wrtn_byte = omega arith;
    stat = h;
  }

  -- A round of the loop, for any rest of it.
  disk_step-Sized :
      (o : Option ℕ) (scan : DiskScan) (uptime : ℕ) (rest : Listing F)
      → OfSome IsU64 o
      → Scanned scan
      → IsU64 uptime
      → SizedListing rest
      → SizedListing (elim o as (λ x. Listing F) [
        | none ↦ undefined
        | some uptime0 ↦ elim scan as (λ x. Listing F) [
          | overflow ↦ undefined
          | other ↦ listed [] (unknown_diskstats ∷ [])
          | converted dev ns ↦ put (disk_entry D dev (disk_stat uptime uptime0 ns)) rest
        ]
      ])
  disk_step-Sized none scan uptime rest h0 sc h hs = tt
  disk_step-Sized (some uptime0) overflow uptime rest h0 sc h hs = tt
  disk_step-Sized (some uptime0) other uptime rest h0 sc h hs = tt
  disk_step-Sized (some uptime0) (converted dev ns) uptime rest h0 (short, fit) h hs =
      put-Sized (disk_entry D dev (disk_stat uptime uptime0 ns)) rest
        (disk_entry-Sized dev (disk_stat uptime uptime0 ns) short
          (disk_stat-Sized uptime uptime0 ns h h0 fit))
        hs

  read_disks-Sized :
      (sys : IoSystem) (hz num_of_cpu : ℕ) (bufs : List Bytes)
      → SizedListing (read_disks D sys hz num_of_cpu bufs)
  unfolding read_disks
  read_disks-Sized sys hz num_of_cpu [] = tt
  read_disks-Sized sys hz num_of_cpu (buf ∷ bufs) =
      log_before-Sized (get_cpu_time_in_jiffies sys.stat).1 _ (
        disk_step-Sized (uptime0_of hz num_of_cpu sys.uptime) (scan_disk buf)
          (get_cpu_time_in_jiffies sys.stat).0 (read_disks D sys hz num_of_cpu bufs)
          (uptime0_of-range hz num_of_cpu sys.uptime) (scan_disk-Scanned buf)
          (get_cpu_time-range sys.stat) (read_disks-Sized sys hz num_of_cpu bufs))

  diskstats-Sized :
      (sys : IoSystem) (hz num_of_cpu : ℕ) (o : Option Bytes)
      → SizedListing (read_diskstats D sys hz num_of_cpu o)
  diskstats-Sized sys hz num_of_cpu none = tt
  diskstats-Sized sys hz num_of_cpu (some text) =
      read_disks-Sized sys hz num_of_cpu (lines 256 text)

  with_ticks-Sized :
      (sys : IoSystem) (num_of_cpu : ℕ) (o : Option ℕ)
      → SizedListing (with_ticks D sys num_of_cpu o)
  with_ticks-Sized sys num_of_cpu none = tt
  with_ticks-Sized sys num_of_cpu (some ticks) =
      diskstats-Sized sys (to_uint ticks) num_of_cpu sys.diskstats

  with_count-Sized : (sys : IoSystem) (c : Count) → SizedListing (with_count D sys c)
  with_count-Sized sys (Count.returned n) = with_ticks-Sized sys n sys.ticks
  with_count-Sized sys (Count.exited call) = tt
  with_count-Sized sys Count.undefined = tt

  pub read_io_stat-Sized : (sys : IoSystem) → SizedListing (read_io_stat D sys)
  unfolding read_io_stat
  read_io_stat-Sized sys = with_count-Sized sys (get_num_of_cpu sys.stat sys.error)

  compute_entry-Sized :
      (hz num_of_cpu : ℕ) (e : Io F) (ps : IoStat)
      → SizedIo e
      → SizedIo (compute_entry D hz num_of_cpu e ps)
  unfolding compute_entry sub64
  compute_entry-Sized hz num_of_cpu e ps h = record {
    dev = h.dev;
    read_byte = omega arith;
    wrtn_byte = omega arith;
    stat = h.stat;
  }

  compute_against-Sized :
      (hz num_of_cpu : ℕ) (e : Io F) (prevs : List (Io F))
      → SizedIo e
      → SizedIo (compute_against D hz num_of_cpu e prevs)
  unfolding compute_against
  compute_against-Sized hz num_of_cpu e [] h = h
  compute_against-Sized hz num_of_cpu e (p ∷ prevs) h = elim (Bool-cases (same_text e.dev p.dev)) [
    | inl same ↦ rw same (compute_entry-Sized hz num_of_cpu e p.stat h)
    | inr different ↦ rw different (compute_against-Sized hz num_of_cpu e prevs h)
  ]

  pub compute_io_stat-Sized :
      (hz num_of_cpu : ℕ) (es prevs : List (Io F))
      → All SizedIo es
      → All SizedIo (compute_io_stat D hz num_of_cpu es prevs)
  unfolding compute_io_stat
  compute_io_stat-Sized hz num_of_cpu [] prevs h = tt
  compute_io_stat-Sized hz num_of_cpu (e ∷ es) prevs (h, hs) = (
    compute_against-Sized hz num_of_cpu e prevs h,
    compute_io_stat-Sized hz num_of_cpu es prevs hs,
  )
