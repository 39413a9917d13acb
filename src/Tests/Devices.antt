-- ===== src/Tests/Devices.antt =====
-- Two samples of the devices compared.
use zsr.Prelude.{
  ℕ, ◌≡◌, ◌≢◌, refl, [], ◌∷◌, ◌++◌, List, Bytes, codes, map, arith, same_text, ne_of_same_text,
}
use zsr.Double.{Expr, lit, symbolic}
use zsr.Io.{Io, IoStat, compute_entry, compute_io_stat}
use zsr.Io.Match.{compute_io_stat-matched, compute_io_stat-again}
use zsr.Io.Rates.{IsLater, with_rates, compute_entry-rates}

abbrev zero_io_stat : IoStat
zero_io_stat = record {
  uptime = 0;
  uptime0 = 0;
  rd_sectors = 0;
  wr_sectors = 0;
  rd_ios = 0;
  rd_merges = 0;
  wr_ios = 0;
  wr_merges = 0;
  rd_ticks = 0;
  wr_ticks = 0;
  ios_pgr = 0;
  tot_ticks = 0;
  rq_ticks = 0;
}

abbrev disk : Bytes → ℕ → ℕ → Io Expr
disk dev uptime rd_ios = record {
  dev = dev;
  tps = lit 0;
  read_byte = 0;
  wrtn_byte = 0;
  rrqm_per_sec = lit 0;
  wrqm_per_sec = lit 0;
  r_per_sec = lit 0;
  w_per_sec = lit 0;
  r_speed_per_sec = lit 0;
  w_speed_per_sec = lit 0;
  avgrq_sz = lit 0;
  avgqu_sz = lit 0;
  await = lit 0;
  r_await = lit 0;
  w_await = lit 0;
  util = lit 0;
  stat = record zero_io_stat { uptime = uptime; uptime0 = uptime; rd_ios = rd_ios };
}

abbrev earlier : List (Io Expr)
earlier = disk (codes "sdb") 100 5 ∷ disk (codes "sda") 100 9 ∷ []

differ : codes "sda" ≢ codes "sdb"
unfolding same_text
differ = ne_of_same_text (codes "sda") (codes "sdb") refl

compute_io_stat-matched_example :
    compute_io_stat symbolic 100 4 ([] ++ disk (codes "sda") 300 19 ∷ []) earlier
    ≡ compute_io_stat symbolic 100 4 [] earlier
      ++ compute_entry symbolic 100 4 (disk (codes "sda") 300 19) (disk (codes "sda") 100 9).stat
        ∷ compute_io_stat symbolic 100 4 [] earlier
compute_io_stat-matched_example =
    compute_io_stat-matched symbolic 100 4 [] (disk (codes "sda") 300 19) []
      (disk (codes "sdb") 100 5 ∷ []) (disk (codes "sda") 100 9) [] (differ, tt) refl

compute_io_stat-again_example :
    (map (λ (c : Io Expr). c.dev) (compute_io_stat symbolic 100 4 earlier earlier)
      ≡ map (λ (c : Io Expr). c.dev) earlier)
    × (map (λ (c : Io Expr). c.stat) (compute_io_stat symbolic 100 4 earlier earlier)
        ≡ map (λ (c : Io Expr). c.stat) earlier)
    × (compute_io_stat symbolic 100 4 (compute_io_stat symbolic 100 4 earlier earlier) earlier
        ≡ compute_io_stat symbolic 100 4 earlier earlier)
compute_io_stat-again_example = compute_io_stat-again symbolic 100 4 earlier earlier

sda-IsLater : IsLater (disk (codes "sda") 100 9).stat (disk (codes "sda") 300 19).stat
sda-IsLater = record {
  uptime = (omega arith, omega arith);
  uptime0 = (omega arith, omega arith);
  rd_ios = omega arith;
  wr_ios = omega arith;
  ios = omega arith;
  rd_sectors = omega arith;
  wr_sectors = omega arith;
  sectors = omega arith;
  rd_ticks = omega arith;
  wr_ticks = omega arith;
  ticks = omega arith;
  rd_merges = (omega arith, omega arith);
  wr_merges = (omega arith, omega arith);
  tot_ticks = (omega arith, omega arith);
  rq_ticks = (omega arith, omega arith);
}

compute_entry-rates_example :
    compute_entry symbolic 100 4 (disk (codes "sda") 300 19) (disk (codes "sda") 100 9).stat
    ≡ with_rates symbolic 100 4 (disk (codes "sda") 300 19) (disk (codes "sda") 100 9).stat
compute_entry-rates_example =
    compute_entry-rates symbolic 100 4 (disk (codes "sda") 300 19) (disk (codes "sda") 100 9).stat
      sda-IsLater
