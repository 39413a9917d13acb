-- ===== src/Io.antt =====
-- libzsr/io.c: the counters of /proc/diskstats and the rates between two samples. The list links of
-- `io_t` are left out. `HZ` and `NUM_OF_CPU`, the two static variables, are arguments.
pub mod Match
pub mod Rates
pub mod Clock
pub mod Listing
use zsr.Prelude.{ℕ, ◌/◌, List, [], ◌∷◌, Bytes, same_text, ltb, ◌==◌, if◌then◌else◌, add64, sub64}
use zsr.Libc.Scan.{scan_lu, scan_lus, scan_word}
use zsr.Libc.Lines.{lines, fgets}
use zsr.Log.{LogCall, LogLevel}
use zsr.Double.{Double}

pub record IoStat : Type 0 where
  pub uptime : ℕ
  pub uptime0 : ℕ
  pub rd_sectors : ℕ
  pub wr_sectors : ℕ
  pub rd_ios : ℕ
  pub rd_merges : ℕ
  pub wr_ios : ℕ
  pub wr_merges : ℕ
  pub rd_ticks : ℕ
  pub wr_ticks : ℕ
  pub ios_pgr : ℕ
  pub tot_ticks : ℕ
  pub rq_ticks : ℕ

pub record Io (F : Type 0) : Type 0 where
  pub dev : Bytes
  pub tps : F
  pub read_byte : ℕ
  pub wrtn_byte : ℕ
  pub rrqm_per_sec : F
  pub wrqm_per_sec : F
  pub r_per_sec : F
  pub w_per_sec : F
  pub r_speed_per_sec : F
  pub w_speed_per_sec : F
  pub avgrq_sz : F
  pub avgqu_sz : F
  pub await : F
  pub r_await : F
  pub w_await : F
  pub util : F
  pub stat : IoStat

-- 1024 * 1024 / SECTOR_IN_BYTE.
abbrev pub factor : ℕ
factor = 2048

-- Jiffies between two samples: by the uptime of /proc/uptime on a machine with several processors.
unfoldable pub interval : ℕ → IoStat → IoStat → ℕ
interval num_of_cpu cs ps =
    if ltb 1 num_of_cpu then sub64 cs.uptime0 ps.uptime0 else sub64 cs.uptime ps.uptime

module _ (D : Double) where
  open D use {F, of_u64, mul, div}

  -- The macro COMPUTE_STAT.
  unfoldable pub compute_stat : ℕ → ℕ → ℕ → ℕ → F
  compute_stat hz c p itv = mul (div (of_u64 (sub64 c p)) (of_u64 itv)) (of_u64 hz)

  -- `n ? x / (double)n : 0.0`.
  unfoldable pub ratio : ℕ → ℕ → F
  ratio x n = if n == 0 then of_u64 0 else div (of_u64 x) (of_u64 n)

  -- The body of the inner loop at a pair of entries of one device.
  unfoldable pub compute_entry : ℕ → ℕ → Io F → IoStat → Io F
  compute_entry hz num_of_cpu curr ps =
      let cs = curr.stat in
      let itv = interval num_of_cpu cs ps in
      let change_nr_ios = sub64 (add64 cs.rd_ios cs.wr_ios) (add64 ps.rd_ios ps.wr_ios) in
      let change_rd_ticks = sub64 cs.rd_ticks ps.rd_ticks in
      let change_wr_ticks = sub64 cs.wr_ticks ps.wr_ticks in
      let change_rd_ios = sub64 cs.rd_ios ps.rd_ios in
      let change_wr_ios = sub64 cs.wr_ios ps.wr_ios in
      let change_rd_sectors = sub64 cs.rd_sectors ps.rd_sectors in
      let change_wr_sectors = sub64 cs.wr_sectors ps.wr_sectors in
      record {
        dev = curr.dev;
        tps = compute_stat hz (add64 cs.rd_ios cs.wr_ios) (add64 ps.rd_ios ps.wr_ios) itv;
        read_byte = change_rd_sectors / factor;
        wrtn_byte = change_wr_sectors / factor;
        rrqm_per_sec = compute_stat hz cs.rd_merges ps.rd_merges itv;
        wrqm_per_sec = compute_stat hz cs.wr_merges ps.wr_merges itv;
        r_per_sec = compute_stat hz cs.rd_ios ps.rd_ios itv;
        w_per_sec = compute_stat hz cs.wr_ios ps.wr_ios itv;
        r_speed_per_sec = div (compute_stat hz cs.rd_sectors ps.rd_sectors itv) (of_u64 factor);
        w_speed_per_sec = div (compute_stat hz cs.wr_sectors ps.wr_sectors itv) (of_u64 factor);
        avgrq_sz = ratio (add64 change_rd_sectors change_wr_sectors) change_nr_ios;
        avgqu_sz = div (compute_stat hz cs.rq_ticks ps.rq_ticks itv) (of_u64 1000);
        await = ratio (add64 change_rd_ticks change_wr_ticks) change_nr_ios;
        r_await = ratio change_rd_ticks change_rd_ios;
        w_await = ratio change_wr_ticks change_wr_ios;
        util = compute_stat hz cs.tot_ticks ps.tot_ticks itv;
        stat = cs;
      }

  -- The inner loop: the first earlier entry of the same device counts.
  unfoldable pub compute_against : ℕ → ℕ → Io F → List (Io F) → Io F
  compute_against hz num_of_cpu curr [] = curr
  compute_against hz num_of_cpu curr (prev ∷ prevs) =
      if same_text curr.dev prev.dev
      then compute_entry hz num_of_cpu curr prev.stat
      else compute_against hz num_of_cpu curr prevs

  unfoldable pub compute_io_stat : ℕ → ℕ → List (Io F) → List (Io F) → List (Io F)
  unfolding compute_against
  compute_io_stat hz num_of_cpu [] prevs = []
  compute_io_stat hz num_of_cpu (curr ∷ currs) prevs =
      compute_against hz num_of_cpu curr prevs ∷ compute_io_stat hz num_of_cpu currs prevs
