-- ===== src/Modules/Handlers/Samples.antt =====
-- The handlers of mod_io.c and mod_proc.c over what the system shows: from the text of the files to the
-- entries that are compared with the last sample.
use zsr.Prelude.{
  ℕ, ◌≡◌, ◌≢◌, refl, ap, Option, some, List, [], ◌∷◌, ◌++◌, map, map-append, Bytes,
  get_last?-append_one, All, arith,
}
use zsr.Libc.Lines.{join_lines}
use zsr.Libc.Scan.{scan_lu}
use zsr.Double.{Double}
use zsr.Fs.{FsNumbers}
use zsr.Cpu.{CpuStat, zero_cpu_stat, read_cpu_stat}
use zsr.Cpu.Count
use zsr.Cpu.Count.{get_num_of_cpu}
use zsr.Io.{Io, compute_io_stat}
use zsr.Io.Clock.{get_cpu_time_in_jiffies}
use zsr.Io.Match.{compute_io_stat-matched}
use zsr.Io.Rates.{IsLater, with_rates, compute_entry-rates}
use zsr.Io.Listing.{Listing, to_uint, uptime0_of, scan_disk, read_io_stat}
use zsr.Io.Listing.Entries.{Disk, Fits, disk_line, entry_of, read_io_stat-lines}
use zsr.Proc.{Proc, sample}
use zsr.Proc.Prefix.{SamePids, IsNew}
use zsr.Proc.Aligned.{with_shares, Distinct, NotZero, compute_proc_cpu_stat-aligned}
use zsr.Proc.Listing.{ProcSystem}
use zsr.Proc.Listing.Processes.{
  Entry, process, another, dir_entries, AllShown, proc_of, procs_of, get_all_proc-shown,
}
use zsr.Modules.History.{collect_proc, collect_io}
use zsr.Modules.Handlers.{Records, SystemView, proc_handlers, io_handlers}

module _ (D : Double) (sscanf_f : Bytes → List D.F) (inet_ntop : ℕ → Option Bytes)
    (held : FsNumbers D.F) where
  open D use {F}

  -- The system with the lines of these devices.
  abbrev pub with_disks : SystemView → List Disk → SystemView
  with_disks s ds = record s {
    io = record s.io { diskstats = some (join_lines (map disk_line ds)) };
  }

  -- The system with these entries of /proc.
  abbrev pub with_entries : SystemView → List Entry → SystemView
  with_entries s es = record s { proc = record s.proc { entries = some (dir_entries es) } }

  collect_io-matched :
      (hz num_of_cpu : ℕ) (xs : List (Io F)) (x : Io F) (ys : List (Io F))
      (samples : List (List (Io F))) (before : List (Io F)) (prev : Io F) (after : List (Io F))
      → All (λ q. x.dev ≢ q.dev) before
      → x.dev ≡ prev.dev
      → IsLater prev.stat x.stat
      → collect_io D hz num_of_cpu (xs ++ x ∷ ys) (samples ++ (before ++ prev ∷ after) ∷ [])
        ≡ (samples ++ (before ++ prev ∷ after) ∷ [])
          ++ (compute_io_stat D hz num_of_cpu xs (before ++ prev ∷ after)
              ++ with_rates D hz num_of_cpu x prev.stat
                ∷ compute_io_stat D hz num_of_cpu ys (before ++ prev ∷ after))
            ∷ []
  unfolding collect_io
  collect_io-matched hz num_of_cpu xs x ys samples before prev after first same later =
      rw
        (
          get_last?-append_one samples (before ++ prev ∷ after),
          compute_io_stat-matched D hz num_of_cpu xs x ys before prev after first same,
          compute_entry-rates D hz num_of_cpu x prev.stat later,
        )
        refl

  read_io_stat-disks :
      (s : SystemView) (ticks num_of_cpu uptime uptime0 : ℕ) (ds : List Disk)
      → get_num_of_cpu s.io.stat s.io.error ≡ Count.returned num_of_cpu
      → s.io.ticks ≡ some ticks
      → get_cpu_time_in_jiffies s.io.stat ≡ (uptime, [])
      → uptime0_of (to_uint ticks) num_of_cpu s.io.uptime ≡ some uptime0
      → All Fits ds
      → read_io_stat D (with_disks s ds).io ≡ Listing.listed (map (entry_of D uptime uptime0) ds) []
  unfolding scan_disk scan_lu
  read_io_stat-disks s ticks num_of_cpu uptime uptime0 ds count tick clock clock0 fit =
      (read_io_stat-lines D s.io ticks num_of_cpu uptime uptime0 ds [] [] count tick clock clock0
        fit (record { clean = tt; short = omega arith }) refl).0

  -- Where the system answers the other calls, the lines of /proc/diskstats are well-formed, and the
  -- device of one of them is found in the last sample, with counters that have only grown: the
  -- handler adds one sample, in which this device has the rates of the plain differences between
  -- its line and its first entry in the last sample; the devices around it are treated on their own.
  -- Earlier samples and the lists of other modules stay.
  pub collect_record-io :
      (s : SystemView) (ticks num_of_cpu uptime uptime0 : ℕ) (xs : List Disk) (x : Disk)
      (ys : List Disk) (r : Records F) (samples : List (List (Io F))) (before : List (Io F))
      (prev : Io F) (after : List (Io F))
      → get_num_of_cpu s.io.stat s.io.error ≡ Count.returned num_of_cpu
      → s.io.ticks ≡ some ticks
      → get_cpu_time_in_jiffies s.io.stat ≡ (uptime, [])
      → uptime0_of (to_uint ticks) num_of_cpu s.io.uptime ≡ some uptime0
      → All Fits (xs ++ x ∷ ys)
      → All (λ q. x.dev ≢ q.dev) before
      → x.dev ≡ prev.dev
      → IsLater prev.stat (entry_of D uptime uptime0 x).stat
      → (io_handlers D sscanf_f inet_ntop held).collect_record
          (with_disks s (xs ++ x ∷ ys))
          (record r { io = samples ++ (before ++ prev ∷ after) ∷ [] })
        ≡ record r {
          io =
              (samples ++ (before ++ prev ∷ after) ∷ [])
              ++ (compute_io_stat D
                    (to_uint ticks)
                    num_of_cpu
                    (map (entry_of D uptime uptime0) xs)
                    (before ++ prev ∷ after)
                  ++ with_rates D (to_uint ticks) num_of_cpu (entry_of D uptime uptime0 x) prev.stat
                    ∷ compute_io_stat D
                        (to_uint ticks)
                        num_of_cpu
                        (map (entry_of D uptime uptime0) ys)
                        (before ++ prev ∷ after))
                ∷ [];
        }
  unfolding io_handlers
  collect_record-io s ticks num_of_cpu uptime uptime0 xs x ys r samples before prev after count tick
        clock clock0 fit first same later =
      rw
        (
          read_io_stat-disks s ticks num_of_cpu uptime uptime0 (xs ++ x ∷ ys) count tick clock
              clock0 fit,
          count,
          tick,
          map-append (entry_of D uptime uptime0) xs (x ∷ ys),
        )
        (ap (λ l. record r { io = l })
          (collect_io-matched (to_uint ticks) num_of_cpu (map (entry_of D uptime uptime0) xs)
            (entry_of D uptime uptime0 x) (map (entry_of D uptime uptime0) ys) samples before prev
            after first same later))

  procs_of-append :
      (sys : ProcSystem) (cpu : CpuStat) (es fs : List Entry)
      → procs_of D sys cpu (es ++ fs) ≡ procs_of D sys cpu es ++ procs_of D sys cpu fs
  procs_of-append sys cpu [] fs = refl
  procs_of-append sys cpu (process p ∷ es) fs =
      ap (λ ps. proc_of D sys cpu p ∷ ps) (procs_of-append sys cpu es fs)
  procs_of-append sys cpu (another e ∷ es) fs = procs_of-append sys cpu es fs

  -- /proc lists the processes of the front part of the last sample, in the same order, and then
  -- processes that the last sample does not have, among other entries; all show well-formed files, no
  -- number occurs twice and none is 0; the counters of all processors are read. Then the handler adds one sample: each of the first processes
  -- has what its files say and its share of the processor time since its own earlier sample, and each
  -- new one what its files say. Earlier samples and the lists of other modules stay.
  pub collect_record-proc :
      (s : SystemView) (cpu : CpuStat) (es fs : List Entry) (r : Records F)
      (samples : List (List (Proc F))) (olds gone : List (Proc F))
      → read_cpu_stat s.proc.cpu zero_cpu_stat ≡ (cpu, [])
      → AllShown s.proc.users (es ++ fs)
      → SamePids (map sample (procs_of D s.proc cpu es)) (map sample olds)
      → All (IsNew (map sample olds ++ map sample gone)) (map sample (procs_of D s.proc cpu fs))
      → Distinct D (procs_of D s.proc cpu es ++ procs_of D s.proc cpu fs)
      → All (NotZero D) (procs_of D s.proc cpu es ++ procs_of D s.proc cpu fs)
      → (proc_handlers D sscanf_f inet_ntop held).collect_record
          (with_entries s (es ++ fs))
          (record r { proc = samples ++ (olds ++ gone) ∷ [] })
        ≡ record r {
          proc =
              (samples ++ (olds ++ gone) ∷ [])
              ++ (with_shares D (procs_of D s.proc cpu es) olds ++ procs_of D s.proc cpu fs) ∷ [];
        }
  unfolding proc_handlers collect_proc
  collect_record-proc s cpu es fs r samples olds gone counters shown same fresh distinct nz =
      rw
        (
          get_all_proc-shown D (with_entries s (es ++ fs)).proc cpu (es ++ fs) counters shown refl,
          procs_of-append s.proc cpu es fs,
          get_last?-append_one samples (olds ++ gone),
          compute_proc_cpu_stat-aligned D (procs_of D s.proc cpu es) olds (procs_of D s.proc cpu fs)
              gone same fresh distinct nz,
        )
        refl
