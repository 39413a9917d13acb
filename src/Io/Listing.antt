-- ===== src/Io/Listing.antt =====
-- libzsr/io.c: read_io_stat and get_HZ. What the system shows during the call is a record; the two
-- static variables are part of the result.
pub mod Entries
use zsr.Prelude.{
  ℕ, ◌+◌, ◌%◌, ◌^◌, Bool, Option, none, some, List, [], ◌∷◌, ◌++◌, Bytes, codes, length, get_or,
  ltb, ◌==◌, if◌then◌else◌,
}
use zsr.Libc.Lines.{lines}
use zsr.Libc.Scan.{scan_lu, scan_lus, scan_word}
use zsr.Log.{LogCall, log_error_of, log_fatal, with_message}
use zsr.Double.{Double}
use zsr.Cpu.Count
use zsr.Cpu.Count.{Count, get_num_of_cpu}
use zsr.Io.{Io, IoStat}
use zsr.Io.Clock.{get_cpu_time_in_jiffies, read_uptime_in_jiffies}

pub record IoSystem : Type 0 where
  -- `sysconf(_SC_CLK_TCK)`; none: -1
  pub ticks : Option ℕ
  -- /proc/stat, /proc/uptime and /proc/diskstats; none: cannot be opened
  pub stat : Option Bytes
  pub uptime : Option Bytes
  pub diskstats : Option Bytes
  -- the text of `errno`
  pub error : Bytes

-- What `sscanf` makes of a line. `overflow`: the name of the device does not fit into `dev`.
pub data DiskScan : Type 0 where
  overflow : DiskScan
  other : DiskScan
  converted : Bytes → List ℕ → DiskScan

abbrev pub eleven : Bytes → List ℕ → DiskScan
eleven dev ns = if length ns == 11 then converted dev ns else other

-- From `%s` on.
abbrev pub scan_dev : Option (Bytes × Bytes) → DiskScan
scan_dev none = other
scan_dev (some (dev, s)) = if ltb (length dev) 64 then eleven dev (scan_lus 11 s) else overflow

-- From the second number on.
abbrev pub scan_minor : Option (ℕ × Bytes) → DiskScan
scan_minor none = other
scan_minor (some (minor, s)) = scan_dev (scan_word s)

abbrev pub scan_major : Option (ℕ × Bytes) → DiskScan
scan_major none = other
scan_major (some (major, s)) = scan_minor (scan_lu s)

-- `"%u %u %s %lu …"` with 14 conversions; the first two values are not used.
unfoldable pub scan_disk : Bytes → DiskScan
scan_disk buf = scan_major (scan_lu buf)

-- How the function ends: with the entries that it has added and the calls of the log, or by a call of
-- `exit`, or by a read of a variable that nothing was assigned to or a write past the end of `dev`.
pub data Listing (F : Type 0) : Type 0 where
  listed : List (Io F) → List LogCall → Listing F
  exited : List LogCall → Listing F
  undefined : Listing F

abbrev pub put : {F : Type 0} → Io F → Listing F → Listing F
put entry (listed entries logs) = listed (entry ∷ entries) logs
put entry (exited logs) = exited logs
put entry undefined = undefined

abbrev pub log_before : {F : Type 0} → List LogCall → Listing F → Listing F
log_before logs (listed entries more) = listed entries (logs ++ more)
log_before logs (exited more) = exited (logs ++ more)
log_before logs undefined = undefined

abbrev pub unknown_diskstats : LogCall
unknown_diskstats = with_message log_fatal (codes "Unknown /proc/diskstats: Ignore it")

-- `node->stat`, from the numbers in the order of the line.
abbrev pub disk_stat : ℕ → ℕ → List ℕ → IoStat
disk_stat uptime uptime0 ns = record {
  uptime = uptime;
  uptime0 = uptime0;
  rd_ios = get_or ns 0 0;
  rd_merges = get_or ns 1 0;
  rd_sectors = get_or ns 2 0;
  rd_ticks = get_or ns 3 0;
  wr_ios = get_or ns 4 0;
  wr_merges = get_or ns 5 0;
  wr_sectors = get_or ns 6 0;
  wr_ticks = get_or ns 7 0;
  ios_pgr = get_or ns 8 0;
  tot_ticks = get_or ns 9 0;
  rq_ticks = get_or ns 10 0;
}

-- `(uint)ticks`.
abbrev pub to_uint : ℕ → ℕ
to_uint n = n % 2 ^ 32

-- The clock of a machine with several processors.
abbrev pub uptime0_of : ℕ → ℕ → Option Bytes → Option ℕ
uptime0_of hz num_of_cpu uptime =
    if ltb 1 num_of_cpu then read_uptime_in_jiffies hz uptime else some 0

module _ (D : Double) where
  open D use {F, of_u64}

  -- A cleared entry with its name and counters.
  abbrev pub disk_entry : Bytes → IoStat → Io F
  disk_entry dev stat = record {
    dev = dev;
    tps = of_u64 0;
    read_byte = 0;
    wrtn_byte = 0;
    rrqm_per_sec = of_u64 0;
    wrqm_per_sec = of_u64 0;
    r_per_sec = of_u64 0;
    w_per_sec = of_u64 0;
    r_speed_per_sec = of_u64 0;
    w_speed_per_sec = of_u64 0;
    avgrq_sz = of_u64 0;
    avgqu_sz = of_u64 0;
    await = of_u64 0;
    r_await = of_u64 0;
    w_await = of_u64 0;
    util = of_u64 0;
    stat = stat;
  }

  -- The loop over the buffers.
  unfoldable pub read_disks : IoSystem → ℕ → ℕ → List Bytes → Listing F
  read_disks sys hz num_of_cpu [] = listed [] []
  read_disks sys hz num_of_cpu (buf ∷ bufs) =
      let (uptime, logs) = get_cpu_time_in_jiffies sys.stat in
      let rest = read_disks sys hz num_of_cpu bufs in
      log_before logs (elim (uptime0_of hz num_of_cpu sys.uptime) [
        | none ↦ undefined
        | some uptime0 ↦ elim (scan_disk buf) [
          | overflow ↦ undefined
          | other ↦ listed [] (unknown_diskstats ∷ [])
          | converted dev ns ↦ put (disk_entry dev (disk_stat uptime uptime0 ns)) rest
        ]
      ])

  -- `fopen` of /proc/diskstats, and the loop.
  abbrev pub read_diskstats : IoSystem → ℕ → ℕ → Option Bytes → Listing F
  read_diskstats sys hz num_of_cpu none = listed [] (log_error_of "/proc/diskstats" ∷ [])
  read_diskstats sys hz num_of_cpu (some text) = read_disks sys hz num_of_cpu (lines 256 text)

  -- `get_HZ`: without the number of ticks it ends the process.
  abbrev pub with_ticks : IoSystem → ℕ → Option ℕ → Listing F
  with_ticks sys num_of_cpu none = exited []
  with_ticks sys num_of_cpu (some ticks) =
      read_diskstats sys (to_uint ticks) num_of_cpu sys.diskstats

  abbrev pub with_count : IoSystem → Count → Listing F
  with_count sys (Count.returned num_of_cpu) = with_ticks sys num_of_cpu sys.ticks
  with_count sys (Count.exited call) = exited (call ∷ [])
  with_count sys Count.undefined = undefined

  unfoldable pub read_io_stat : IoSystem → Listing F
  read_io_stat sys = with_count sys (get_num_of_cpu sys.stat sys.error)
