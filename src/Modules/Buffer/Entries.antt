-- ===== src/Modules/Buffer/Entries.antt =====
-- The same for file systems, processes and devices.
use zsr.Prelude.{
  ℕ, ◌+◌, ◌≤◌, ◌≡◌, refl, ◌∙◌, inl, inr, Option, none, some, List, [], ◌∷◌, Bytes, length, map,
  Bool-cases, arith,
}
use zsr.Libc.Lines.{lines}
use zsr.Log.{LogCall}
use zsr.Double.{Double}
use zsr.Fs.{Mount, mounts, read_fs_stat}
use zsr.Cpu.Count.{Count, get_num_of_cpu}
use zsr.Proc.{
  Proc, ProcCpuStat, sample, differences, fill, set_share, set_shares, finish,
  compute_proc_cpu_stat,
}
use zsr.Proc.Listing.{
  DirEntry, ProcSystem, is_process, zero_proc, store_single_pid_info, cons_proc, list_procs,
  listing, get_all_proc,
}
use zsr.Io.{Io, compute_io_stat}
use zsr.Io.Clock.{get_cpu_time_in_jiffies}
use zsr.Io.Listing as IoListing
use zsr.Io.Listing.{
  IoSystem, DiskScan, overflow, other, converted, scan_disk, Listing, listed, exited, undefined,
  log_before, unknown_diskstats, disk_stat, disk_entry, uptime0_of, to_uint, read_disks,
  read_diskstats, with_ticks, with_count, read_io_stat,
}
use zsr.Modules.Sized.Answers.{OfSome}
use zsr.Modules.Buffer.Counts.{AtMost, up_to}

-- At most `n` lines, as the buffers hold them.
abbrev pub LinesAtMost : ℕ → Option Bytes → Type 0
LinesAtMost n none = Unit
LinesAtMost n (some text) = length (lines 256 text) ≤ n

module _ (D : Double) where
  open D use {F}

  mounts-length : (mns : List Mount) → length (mounts D mns) ≤ length mns
  unfolding mounts
  mounts-length [] = omega arith
  mounts-length (mn ∷ mns) = ground (arith, mounts-length mns)

  pub read_fs_stat-AtMost :
      (n : ℕ) (mns : Option (List Mount)) → OfSome (AtMost n) mns → AtMost n (read_fs_stat D mns).0
  unfolding read_fs_stat
  read_fs_stat-AtMost n none h = omega arith
  read_fs_stat-AtMost n (some mns) h = omega (arith, mounts-length mns)

  cons_proc-AtMost :
      (n : ℕ) (p : Option (Proc F) × List LogCall) (ps : Option (List (Proc F)) × List LogCall)
      → OfSome (AtMost n) ps.0
      → OfSome (λ xs. length xs ≤ 1 + n) (cons_proc D p ps).0
  cons_proc-AtMost n (none, logs) (ps, more) h = tt
  cons_proc-AtMost n (some p, logs) (none, more) h = tt
  cons_proc-AtMost n (some p, logs) (some ps, more) h = omega arith

  list_procs-AtMost :
      (sys : ProcSystem) (es : List DirEntry) → OfSome (AtMost (length es)) (list_procs D sys es).0
  unfolding list_procs
  list_procs-AtMost sys [] = omega arith
  list_procs-AtMost sys (e ∷ es) = elim (Bool-cases (is_process e)) [
    | inl process ↦ rw process (
        up_to (1 + length es) (length (e ∷ es)) _ (omega arith) (
          cons_proc-AtMost (length es) (store_single_pid_info D sys e (zero_proc D))
            (list_procs D sys es) (list_procs-AtMost sys es)))
    | inr different ↦
        rw different
          (up_to (length es) (length (e ∷ es)) _ (omega arith) (list_procs-AtMost sys es))
  ]

  listing-AtMost :
      (n : ℕ) (sys : ProcSystem) (o : Option (List DirEntry))
      → OfSome (AtMost n) o
      → OfSome (AtMost n) (listing D sys o).0
  listing-AtMost n sys none h = omega arith
  listing-AtMost n sys (some es) h =
      up_to (length es) n (list_procs D sys es).0 h (list_procs-AtMost sys es)

  pub get_all_proc-AtMost :
      (n : ℕ) (sys : ProcSystem)
      → OfSome (AtMost n) sys.entries
      → OfSome (AtMost n) (get_all_proc D sys).0
  unfolding get_all_proc
  get_all_proc-AtMost n sys h = listing-AtMost n sys sys.entries h

  set_share-length : (d : ProcCpuStat) (ps : List (Proc F)) → length (set_share D d ps) ≡ length ps
  unfolding set_share
  set_share-length d [] = refl
  set_share-length d (p ∷ ps) = ground (arith, set_share-length d ps)

  set_shares-length :
      (ds : List ProcCpuStat) (ps : List (Proc F)) → length (set_shares D ds ps) ≡ length ps
  unfolding set_shares
  set_shares-length [] ps = refl
  set_shares-length (d ∷ ds) ps = set_shares-length ds (set_share D d ps) ∙ set_share-length d ps

  finish-AtMost :
      (n : ℕ) (ps : List (Proc F)) (o : Option (List ProcCpuStat))
      → AtMost n ps
      → OfSome (AtMost n) (finish D ps o)
  finish-AtMost n ps none h = tt
  finish-AtMost n ps (some cs) h = omega (arith, set_shares-length (fill (length ps) cs) ps)

  pub compute_proc_cpu_stat-AtMost :
      (n : ℕ) (cur prev : List (Proc F))
      → AtMost n cur
      → OfSome (AtMost n) (compute_proc_cpu_stat D cur prev)
  unfolding compute_proc_cpu_stat
  compute_proc_cpu_stat-AtMost n cur prev h =
      finish-AtMost n cur (differences 0 (map sample cur) (map sample prev)) h

  pub compute_io_stat-length :
      (hz num_of_cpu : ℕ) (es prevs : List (Io F))
      → length (compute_io_stat D hz num_of_cpu es prevs) ≡ length es
  unfolding compute_io_stat
  compute_io_stat-length hz num_of_cpu [] prevs = refl
  compute_io_stat-length hz num_of_cpu (e ∷ es) prevs =
      omega (arith, compute_io_stat-length hz num_of_cpu es prevs)

  abbrev pub ListsAtMost : ℕ → Listing F → Type 0
  ListsAtMost n (listed es logs) = length es ≤ n
  ListsAtMost n (exited logs) = Unit
  ListsAtMost n undefined = Unit

  log_before-AtMost :
      (n : ℕ) (logs : List LogCall) (r : Listing F)
      → ListsAtMost n r
      → ListsAtMost n (log_before logs r)
  log_before-AtMost n logs (listed es more) h = h
  log_before-AtMost n logs (exited more) h = tt
  log_before-AtMost n logs undefined h = tt

  io_put-AtMost :
      (n : ℕ) (e : Io F) (r : Listing F) → ListsAtMost n r → ListsAtMost (1 + n) (IoListing.put e r)
  io_put-AtMost n e (listed es logs) h = omega arith
  io_put-AtMost n e (exited logs) h = tt
  io_put-AtMost n e undefined h = tt

  disk_step-AtMost :
      (n : ℕ) (o : Option ℕ) (scan : DiskScan) (uptime : ℕ) (rest : Listing F)
      → ListsAtMost n rest
      → ListsAtMost (1 + n) (elim o as (λ x. Listing F) [
        | none ↦ undefined
        | some uptime0 ↦ elim scan as (λ x. Listing F) [
          | overflow ↦ undefined
          | other ↦ listed [] (unknown_diskstats ∷ [])
          | converted dev ns ↦ IoListing.put (disk_entry D dev (disk_stat uptime uptime0 ns)) rest
        ]
      ])
  disk_step-AtMost n none scan uptime rest h = tt
  disk_step-AtMost n (some uptime0) overflow uptime rest h = tt
  disk_step-AtMost n (some uptime0) other uptime rest h = omega arith
  disk_step-AtMost n (some uptime0) (converted dev ns) uptime rest h =
      io_put-AtMost n (disk_entry D dev (disk_stat uptime uptime0 ns)) rest h

  up_to_lists : (m n : ℕ) (r : Listing F) → m ≤ n → ListsAtMost m r → ListsAtMost n r
  up_to_lists m n (listed es logs) le h = omega arith
  up_to_lists m n (exited logs) le h = tt
  up_to_lists m n undefined le h = tt

  read_disks-AtMost :
      (sys : IoSystem) (hz num_of_cpu : ℕ) (bufs : List Bytes)
      → ListsAtMost (length bufs) (read_disks D sys hz num_of_cpu bufs)
  unfolding read_disks
  read_disks-AtMost sys hz num_of_cpu [] = omega arith
  read_disks-AtMost sys hz num_of_cpu (buf ∷ bufs) =
      up_to_lists (1 + length bufs) (length (buf ∷ bufs)) _ (omega arith) (
        log_before-AtMost (1 + length bufs) (get_cpu_time_in_jiffies sys.stat).1 _ (
          disk_step-AtMost (length bufs) (uptime0_of hz num_of_cpu sys.uptime) (scan_disk buf)
            (get_cpu_time_in_jiffies sys.stat).0 (read_disks D sys hz num_of_cpu bufs)
            (read_disks-AtMost sys hz num_of_cpu bufs)))

  diskstats-AtMost :
      (n : ℕ) (sys : IoSystem) (hz num_of_cpu : ℕ) (o : Option Bytes)
      → LinesAtMost n o
      → ListsAtMost n (read_diskstats D sys hz num_of_cpu o)
  diskstats-AtMost n sys hz num_of_cpu none h = omega arith
  diskstats-AtMost n sys hz num_of_cpu (some text) h =
      up_to_lists (length (lines 256 text)) n _ h
        (read_disks-AtMost sys hz num_of_cpu (lines 256 text))

  with_ticks-AtMost :
      (n : ℕ) (sys : IoSystem) (num_of_cpu : ℕ) (o : Option ℕ)
      → LinesAtMost n sys.diskstats
      → ListsAtMost n (with_ticks D sys num_of_cpu o)
  with_ticks-AtMost n sys num_of_cpu none h = tt
  with_ticks-AtMost n sys num_of_cpu (some ticks) h =
      diskstats-AtMost n sys (to_uint ticks) num_of_cpu sys.diskstats h

  with_count-AtMost :
      (n : ℕ) (sys : IoSystem) (c : Count)
      → LinesAtMost n sys.diskstats
      → ListsAtMost n (with_count D sys c)
  with_count-AtMost n sys (Count.returned k) h = with_ticks-AtMost n sys k sys.ticks h
  with_count-AtMost n sys (Count.exited call) h = tt
  with_count-AtMost n sys Count.undefined h = tt

  pub read_io_stat-AtMost :
      (n : ℕ) (sys : IoSystem) → LinesAtMost n sys.diskstats → ListsAtMost n (read_io_stat D sys)
  unfolding read_io_stat
  read_io_stat-AtMost n sys h = with_count-AtMost n sys (get_num_of_cpu sys.stat sys.error) h
