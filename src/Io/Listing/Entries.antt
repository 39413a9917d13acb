-- ===== src/Io/Listing/Entries.antt =====
-- `read_io_stat` on a text of well-formed lines.
use zsr.Prelude.{
  ℕ, zero, suc, replicate, ◌≤◌, ◌<◌, ◌≡◌, refl, sym, ap, ◌∙◌, true, some, List, [], ◌∷◌, ◌++◌,
  append_assoc, append-nil, map, Bytes, length, ltb, max_u64, All, arith,
}
use zsr.Libc.Lines.{lines, join_lines, lines-join_lines, lines-line, newline, FitsBuffer}
use zsr.Libc.Scan.{scan_lu, scan_lus, scan_word}
use zsr.Libc.Words.{IsWord, Parts, scan_word-append}
use zsr.Libc.Print.{print_lu}
use zsr.Libc.Print.RoundTrip.{Stops, scan_lu-print_lu, scan_lu-space}
use zsr.Libc.Print.Fields.{print_fields, scan_lus-print_fields}
use zsr.Log.{LogCall}
use zsr.Double.{Double}
use zsr.Cpu.Count
use zsr.Cpu.Count.{get_num_of_cpu}
use zsr.Io.{Io}
use zsr.Io.Clock.{get_cpu_time_in_jiffies}
use zsr.Io.Listing.{
  IoSystem, other, converted, scan_dev, scan_minor, scan_major, scan_disk, Listing, listed, exited,
  undefined, put, log_before, unknown_diskstats, disk_stat, to_uint, uptime0_of, disk_entry,
  read_disks, read_diskstats, with_ticks, with_count, read_io_stat,
}

-- The counters of a device, by their names.
pub record Counters : Type 0 where
  pub rd_ios : ℕ
  pub rd_merges : ℕ
  pub rd_sectors : ℕ
  pub rd_ticks : ℕ
  pub wr_ios : ℕ
  pub wr_merges : ℕ
  pub wr_sectors : ℕ
  pub wr_ticks : ℕ
  pub ios_pgr : ℕ
  pub tot_ticks : ℕ
  pub rq_ticks : ℕ

-- The order in which the kernel documents them.
abbrev pub columns : Counters → List ℕ
columns c =
    (c.rd_ios
      ∷ (c.rd_merges
          ∷ (c.rd_sectors
              ∷ (c.rd_ticks
                  ∷ (c.wr_ios
                      ∷ (c.wr_merges
                          ∷ (c.wr_sectors
                              ∷ (c.wr_ticks
                                  ∷ (c.ios_pgr ∷ (c.tot_ticks ∷ (c.rq_ticks ∷ [])))))))))))

-- What a line of /proc/diskstats says; `more` is what newer kernels write behind the 14 columns. The kernel
-- pads both device numbers with spaces on the left.
pub record Disk : Type 0 where
  pub pad : ℕ
  pub pad' : ℕ
  pub major : ℕ
  pub minor : ℕ
  pub dev : Bytes
  pub counters : Counters
  pub more : Bytes

abbrev pub disk_line : Disk → Bytes
disk_line d =
    replicate d.pad 32
    ++ (print_lu d.major
        ++ (32
            ∷ (replicate d.pad' 32
                ++ (print_lu d.minor
                    ++ (32 ∷ (d.dev ++ (print_fields (columns d.counters) ++ d.more)))))))

-- The line fits into the buffer, the name into `dev`, and each number into 64 bits.
pub record Fits (d : Disk) : Type 0 where
  pub line : FitsBuffer 256 (disk_line d)
  pub major : d.major ≤ max_u64
  pub minor : d.minor ≤ max_u64
  pub dev : IsWord d.dev
  pub short : length d.dev < 64
  pub counters : All (λ n. n ≤ max_u64) (columns d.counters)
  pub more : Stops (d.more ++ newline ∷ [])

Parts-fields : (ns : List ℕ) (k : ℕ) (s : Bytes) → length ns ≡ suc k → Parts (print_fields ns ++ s)
Parts-fields [] k s h = cc
Parts-fields (n ∷ ns) k s h = refl

scan_lus-eleven :
    (ns : List ℕ) (s : Bytes)
    → length ns ≡ 11
    → All (λ n. n ≤ max_u64) ns
    → Stops s
    → scan_lus 11 (print_fields ns ++ s) ≡ ns
scan_lus-eleven ns s len fit stops =
    ap (λ k. scan_lus k (print_fields ns ++ s)) (sym len) ∙ scan_lus-print_fields ns s fit stops

scan_dev-fields :
    (dev : Bytes) (ns : List ℕ) (s : Bytes)
    → IsWord dev
    → length dev < 64
    → length ns ≡ 11
    → All (λ n. n ≤ max_u64) ns
    → Stops s
    → scan_dev (scan_word (32 ∷ (dev ++ (print_fields ns ++ s)))) ≡ converted dev ns
scan_dev-fields dev ns s is_word short len fit stops =
    rw (scan_word-append dev (print_fields ns ++ s) is_word (Parts-fields ns 10 s len)) (
      let short' : ltb (length dev) 64 ≡ true = ground arith in
      rw (short', scan_lus-eleven ns s len fit stops, len) refl)

scan_lu-padded :
    (pad n : ℕ) (rest : Bytes)
    → n ≤ max_u64
    → Stops rest
    → scan_lu (replicate pad 32 ++ (print_lu n ++ rest)) ≡ some (n, rest)
scan_lu-padded zero n rest fit stops = scan_lu-print_lu n rest fit stops
scan_lu-padded (suc pad) n rest fit stops =
    scan_lu-space (replicate pad 32 ++ (print_lu n ++ rest)) ∙ scan_lu-padded pad n rest fit stops

-- The line and its newline, associated to the right.
line-newline :
    (d : Disk)
    → disk_line d ++ newline ∷ []
      ≡ replicate d.pad 32
        ++ (print_lu d.major
            ++ (32
                ∷ (replicate d.pad' 32
                    ++ (print_lu d.minor
                        ++ (32
                            ∷ (d.dev
                                ++ (print_fields (columns d.counters)
                                    ++ (d.more ++ newline ∷ []))))))))
line-newline d = simp append_assoc

scan_disk-line :
    (d : Disk)
    → Fits d
    → scan_disk (disk_line d ++ newline ∷ []) ≡ converted d.dev (columns d.counters)
unfolding scan_disk
scan_disk-line d fits =
    ap (λ t. scan_major (scan_lu t)) (line-newline d)
    ∙ ap scan_major (scan_lu-padded d.pad d.major _ fits.major refl)
    ∙ ap scan_minor (scan_lu-space _ ∙ scan_lu-padded d.pad' d.minor _ fits.minor refl)
    ∙ scan_dev-fields d.dev (columns d.counters) (d.more ++ newline ∷ []) fits.dev fits.short refl
        fits.counters fits.more

lines_fit : (ds : List Disk) → All Fits ds → All (FitsBuffer 256) (map disk_line ds)
lines_fit [] h = tt
lines_fit (d ∷ ds) (f, h) = (f.line, lines_fit ds h)

module _ (D : Double) where
  open D use {F}

  -- The entry of a line: the device, each counter by its name and the values of the two clocks.
  abbrev pub entry_of : ℕ → ℕ → Disk → Io F
  entry_of uptime uptime0 d = disk_entry D d.dev (record {
    uptime = uptime;
    uptime0 = uptime0;
    rd_ios = d.counters.rd_ios;
    rd_merges = d.counters.rd_merges;
    rd_sectors = d.counters.rd_sectors;
    rd_ticks = d.counters.rd_ticks;
    wr_ios = d.counters.wr_ios;
    wr_merges = d.counters.wr_merges;
    wr_sectors = d.counters.wr_sectors;
    wr_ticks = d.counters.wr_ticks;
    ios_pgr = d.counters.ios_pgr;
    tot_ticks = d.counters.tot_ticks;
    rq_ticks = d.counters.rq_ticks;
  })

  abbrev put_all : List (Io F) → Listing F → Listing F
  put_all [] r = r
  put_all (e ∷ es) r = put e (put_all es r)

  put_all-listed :
      (es : List (Io F)) (logs : List LogCall) → put_all es (listed [] logs) ≡ listed es logs
  put_all-listed [] logs = refl
  put_all-listed (e ∷ es) logs = ap (put e) (put_all-listed es logs)

  log_before-nil : (r : Listing F) → log_before [] r ≡ r
  log_before-nil (listed es logs) = refl
  log_before-nil (exited logs) = refl
  log_before-nil undefined = refl

  module _ (sys : IoSystem) (hz num_of_cpu uptime uptime0 : ℕ)
      (clock : get_cpu_time_in_jiffies sys.stat ≡ (uptime, []))
      (clock0 : uptime0_of hz num_of_cpu sys.uptime ≡ some uptime0) where
    read_disks-other :
        (buf : Bytes) (bufs : List Bytes)
        → scan_disk buf ≡ other
        → read_disks D sys hz num_of_cpu (buf ∷ bufs) ≡ listed [] (unknown_diskstats ∷ [])
    unfolding read_disks
    read_disks-other buf bufs h = rw (clock, clock0, h) refl

    read_disks-converted :
        (buf dev : Bytes) (ns : List ℕ) (bufs : List Bytes)
        → scan_disk buf ≡ converted dev ns
        → read_disks D sys hz num_of_cpu (buf ∷ bufs)
          ≡ put
              (disk_entry D dev (disk_stat uptime uptime0 ns))
              (read_disks D sys hz num_of_cpu bufs)
    unfolding read_disks
    read_disks-converted buf dev ns bufs h =
        rw (clock, clock0, h)
          (log_before-nil _
            ∙ ap
                (λ (p : ℕ × List LogCall).
                  put (disk_entry D dev (disk_stat p.0 uptime0 ns))
                    (read_disks D sys hz num_of_cpu bufs))
                clock)

    read_disks-lines :
        (ds : List Disk) (bufs : List Bytes)
        → All Fits ds
        → read_disks D sys hz num_of_cpu (map (λ l. l ++ newline ∷ []) (map disk_line ds) ++ bufs)
          ≡ put_all (map (entry_of uptime uptime0) ds) (read_disks D sys hz num_of_cpu bufs)
    read_disks-lines [] bufs h = refl
    read_disks-lines (d ∷ ds) bufs (f, h) =
        read_disks-converted _ d.dev (columns d.counters) _ (scan_disk-line d f)
        ∙ ap (put (entry_of uptime uptime0 d)) (read_disks-lines ds bufs h)

  read_disks-end :
      (sys : IoSystem) (hz num_of_cpu : ℕ)
      → read_disks D sys hz num_of_cpu (lines 256 []) ≡ listed [] []
  unfolding read_disks lines
  read_disks-end sys hz num_of_cpu = refl

  read_io_stat-count :
      (sys : IoSystem) (num_of_cpu ticks : ℕ)
      → get_num_of_cpu sys.stat sys.error ≡ Count.returned num_of_cpu
      → sys.ticks ≡ some ticks
      → read_io_stat D sys ≡ read_diskstats D sys (to_uint ticks) num_of_cpu sys.diskstats
  unfolding read_io_stat
  read_io_stat-count sys num_of_cpu ticks count tick =
      ap (with_count D sys) count ∙ ap (with_ticks D sys num_of_cpu) tick

  -- Where the system answers every other call: a text of well-formed lines gives one entry for each,
  -- in their order, with the name, the eleven counters and both clocks, and nothing is logged. Where
  -- a line that `sscanf` does not convert follows, the entries are the same, what stands behind the
  -- line is not read, and one message is logged.
  pub read_io_stat-lines :
      (sys : IoSystem) (ticks num_of_cpu uptime uptime0 : ℕ) (ds : List Disk) (bad more : Bytes)
      → get_num_of_cpu sys.stat sys.error ≡ Count.returned num_of_cpu
      → sys.ticks ≡ some ticks
      → get_cpu_time_in_jiffies sys.stat ≡ (uptime, [])
      → uptime0_of (to_uint ticks) num_of_cpu sys.uptime ≡ some uptime0
      → All Fits ds
      → FitsBuffer 256 bad
      → scan_disk (bad ++ newline ∷ []) ≡ other
      → (read_io_stat D (record sys { diskstats = some (join_lines (map disk_line ds)) })
          ≡ listed (map (entry_of uptime uptime0) ds) [])
        × (read_io_stat D (record sys {
          diskstats = some (join_lines (map disk_line ds) ++ (bad ++ newline ∷ more));
        })
            ≡ listed (map (entry_of uptime uptime0) ds) (unknown_diskstats ∷ []))
  read_io_stat-lines sys ticks num_of_cpu uptime uptime0 ds bad more count tick clock clock0 fit b
        h =
      (
        rw (sym (append-nil (join_lines (map disk_line ds)))) (
            begins []
            ∙ ap (put_all (map (entry_of uptime uptime0) ds))
                (read_disks-end (shown []) (to_uint ticks) num_of_cpu)
            ∙ put_all-listed (map (entry_of uptime uptime0) ds) []),
        begins (bad ++ newline ∷ more)
            ∙ ap (put_all (map (entry_of uptime uptime0) ds)) (
                ap (read_disks D (shown (bad ++ newline ∷ more)) (to_uint ticks) num_of_cpu)
                  (lines-line 254 bad more b.clean (omega (arith, b.short)))
                ∙ read_disks-other (shown (bad ++ newline ∷ more)) (to_uint ticks) num_of_cpu uptime
                    uptime0 clock clock0 (bad ++ newline ∷ []) (lines 256 more) h)
            ∙ put_all-listed (map (entry_of uptime uptime0) ds) (unknown_diskstats ∷ []),
      )
    where
      shown : Bytes → IoSystem
      shown rest = record sys { diskstats = some (join_lines (map disk_line ds) ++ rest) }

      begins :
          (rest : Bytes)
          → read_io_stat D (shown rest)
            ≡ put_all
                (map (entry_of uptime uptime0) ds)
                (read_disks D (shown rest) (to_uint ticks) num_of_cpu (lines 256 rest))
      begins rest =
          read_io_stat-count (shown rest) num_of_cpu ticks count tick
          ∙ ap (read_disks D (shown rest) (to_uint ticks) num_of_cpu)
              (lines-join_lines 254 (map disk_line ds) rest (lines_fit ds fit))
          ∙ read_disks-lines (shown rest) (to_uint ticks) num_of_cpu uptime uptime0 clock clock0 ds
              (lines 256 rest) fit
