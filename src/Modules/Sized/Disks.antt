-- ===== src/Modules/Sized/Disks.antt =====
-- What the lines of /proc/diskstats and the clocks of libzsr/io.c are read as.
use zsr.Prelude.{
  ℕ, ◌<◌, inl, inr, Option, none, some, List, [], ◌∷◌, Bytes, length, ltb, All, Bool-cases, ◌==◌,
  arith,
}
use zsr.Libc.Lines.{lines}
use zsr.Libc.Scan.{scan_lu, scan_lus, scan_word}
use zsr.Cpu.{sum_cpu_stat}
use zsr.Io.Clock.{
  get_cpu_time_in_jiffies, with_cent, with_sec, first_line, jiffies, read_uptime_in_jiffies,
}
use zsr.Io.Listing.{
  DiskScan, overflow, other, converted, eleven, scan_dev, scan_minor, scan_major, scan_disk,
  disk_stat, uptime0_of,
}
use zsr.Modules.Sized.{IsU64, SizedIoStat}
use zsr.Modules.Sized.Readers.{get_or-range, scan_lus-range}
use zsr.Modules.Sized.Answers.{OfSome}

-- What a disk line gives.
abbrev pub Scanned : DiskScan → Type 0
Scanned overflow = Unit
Scanned other = Unit
Scanned (converted dev ns) = (length dev < 64) × All IsU64 ns

pub disk_stat-Sized :
    (uptime uptime0 : ℕ) (ns : List ℕ)
    → IsU64 uptime
    → IsU64 uptime0
    → All IsU64 ns
    → SizedIoStat (disk_stat uptime uptime0 ns)
disk_stat-Sized uptime uptime0 ns h h0 fit = record {
  uptime = h;
  uptime0 = h0;
  rd_ios = get_or-range ns 0 0 fit (omega arith);
  rd_merges = get_or-range ns 1 0 fit (omega arith);
  rd_sectors = get_or-range ns 2 0 fit (omega arith);
  rd_ticks = get_or-range ns 3 0 fit (omega arith);
  wr_ios = get_or-range ns 4 0 fit (omega arith);
  wr_merges = get_or-range ns 5 0 fit (omega arith);
  wr_sectors = get_or-range ns 6 0 fit (omega arith);
  wr_ticks = get_or-range ns 7 0 fit (omega arith);
  ios_pgr = get_or-range ns 8 0 fit (omega arith);
  tot_ticks = get_or-range ns 9 0 fit (omega arith);
  rq_ticks = get_or-range ns 10 0 fit (omega arith);
}

pub get_cpu_time-range : (text : Option Bytes) → IsU64 (get_cpu_time_in_jiffies text).0
unfolding get_cpu_time_in_jiffies sum_cpu_stat
get_cpu_time-range text = omega arith

pub eleven-Scanned :
    (dev : Bytes) (ns : List ℕ) → length dev < 64 → All IsU64 ns → Scanned (eleven dev ns)
eleven-Scanned dev ns short fit = elim (Bool-cases (length ns == 11)) [
  | inl all ↦ rw all (short, fit)
  | inr some_missing ↦ rw some_missing tt
]

pub scan_dev-Scanned : (o : Option (Bytes × Bytes)) → Scanned (scan_dev o)
scan_dev-Scanned none = tt
scan_dev-Scanned (some (dev, s)) = elim (Bool-cases (ltb (length dev) 64)) [
  | inl short ↦ rw short (eleven-Scanned dev (scan_lus 11 s) (ground arith) (scan_lus-range 11 s))
  | inr long ↦ rw long tt
]

pub scan_minor-Scanned : (o : Option (ℕ × Bytes)) → Scanned (scan_minor o)
scan_minor-Scanned none = tt
scan_minor-Scanned (some (minor, s)) = scan_dev-Scanned (scan_word s)

pub scan_major-Scanned : (o : Option (ℕ × Bytes)) → Scanned (scan_major o)
scan_major-Scanned none = tt
scan_major-Scanned (some (major, s)) = scan_minor-Scanned (scan_lu s)

pub scan_disk-Scanned : (buf : Bytes) → Scanned (scan_disk buf)
unfolding scan_disk
scan_disk-Scanned buf = scan_major-Scanned (scan_lu buf)

pub jiffies-range : (hz s c : ℕ) → IsU64 (jiffies hz s c)
unfolding jiffies
jiffies-range hz s c = omega arith

pub with_cent-range : (hz s : ℕ) (o : Option (ℕ × Bytes)) → OfSome IsU64 (with_cent hz s o)
with_cent-range hz s none = tt
with_cent-range hz s (some (c, r)) = jiffies-range hz s c

pub with_sec-range : (hz : ℕ) (o : Option (ℕ × Bytes)) → OfSome IsU64 (with_sec hz o)
with_sec-range hz none = tt
with_sec-range hz (some (s, [])) = tt
with_sec-range hz (some (s, c ∷ r)) = elim (Bool-cases (c == b'.')) [
  | inl point ↦ rw point (with_cent-range hz s (scan_lu r))
  | inr different ↦ rw different tt
]

pub first_line-range : (hz : ℕ) (bufs : List Bytes) → OfSome IsU64 (first_line hz bufs)
first_line-range hz [] = omega arith
first_line-range hz (line ∷ bufs) = with_sec-range hz (scan_lu line)

pub read_uptime-range :
    (hz : ℕ) (text : Option Bytes) → OfSome IsU64 (read_uptime_in_jiffies hz text)
unfolding read_uptime_in_jiffies
read_uptime-range hz none = omega arith
read_uptime-range hz (some text) = first_line-range hz (lines 128 text)

pub uptime0_of-range :
    (hz num_of_cpu : ℕ) (uptime : Option Bytes) → OfSome IsU64 (uptime0_of hz num_of_cpu uptime)
uptime0_of-range hz num_of_cpu uptime = elim (Bool-cases (ltb 1 num_of_cpu)) [
  | inl several ↦ rw several (read_uptime-range hz uptime)
  | inr one ↦ rw one (omega arith)
]
