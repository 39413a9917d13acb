-- ===== src/Io/Rates.antt =====
-- The rates that `compute_io_stat` computes between two samples of one device.
use zsr.Prelude.{
  ℕ, ◌+◌, ◌-◌, ◌/◌, ◌≤◌, ◌<◌, ◌≡◌, refl, ap, ltb, if◌then◌else◌, arith, u64_mod, add64, sub64,
  add64_exact, sub64_exact,
}
use zsr.Double.{Double}
use zsr.Io.{Io, IoStat, factor, interval, ratio, compute_stat, compute_entry}

-- The second sample was taken after the first, and no counter has wrapped around in between.
pub record IsLater (ps cs : IoStat) : Type 0 where
  pub uptime : (ps.uptime ≤ cs.uptime) × (cs.uptime < u64_mod)
  pub uptime0 : (ps.uptime0 ≤ cs.uptime0) × (cs.uptime0 < u64_mod)
  pub rd_ios : ps.rd_ios ≤ cs.rd_ios
  pub wr_ios : ps.wr_ios ≤ cs.wr_ios
  pub ios : cs.rd_ios + cs.wr_ios < u64_mod
  pub rd_sectors : ps.rd_sectors ≤ cs.rd_sectors
  pub wr_sectors : ps.wr_sectors ≤ cs.wr_sectors
  pub sectors : cs.rd_sectors + cs.wr_sectors < u64_mod
  pub rd_ticks : ps.rd_ticks ≤ cs.rd_ticks
  pub wr_ticks : ps.wr_ticks ≤ cs.wr_ticks
  pub ticks : cs.rd_ticks + cs.wr_ticks < u64_mod
  pub rd_merges : (ps.rd_merges ≤ cs.rd_merges) × (cs.rd_merges < u64_mod)
  pub wr_merges : (ps.wr_merges ≤ cs.wr_merges) × (cs.wr_merges < u64_mod)
  pub tot_ticks : (ps.tot_ticks ≤ cs.tot_ticks) × (cs.tot_ticks < u64_mod)
  pub rq_ticks : (ps.rq_ticks ≤ cs.rq_ticks) × (cs.rq_ticks < u64_mod)

-- The jiffies between two samples.
abbrev pub elapsed : ℕ → IoStat → IoStat → ℕ
elapsed num_of_cpu ps cs =
    if ltb 1 num_of_cpu then cs.uptime0 - ps.uptime0 else cs.uptime - ps.uptime

interval-exact :
    (num_of_cpu : ℕ) (ps cs : IoStat)
    → IsLater ps cs
    → interval num_of_cpu cs ps ≡ elapsed num_of_cpu ps cs
unfolding interval
interval-exact num_of_cpu ps cs later =
    rw
      (
        sub64_exact cs.uptime0 ps.uptime0 later.uptime0.0 later.uptime0.1,
        sub64_exact cs.uptime ps.uptime later.uptime.0 later.uptime.1,
      )
      refl

add64-sub64-exact :
    (c c' p p' : ℕ)
    → p ≤ c
    → p' ≤ c'
    → c + c' < u64_mod
    → sub64 (add64 c c') (add64 p p') ≡ (c - p) + (c' - p')
unfolding add64 sub64
add64-sub64-exact c c' p p' le le' lt = omega arith

module _ (D : Double) where
  open D use {F, of_u64, mul, div}

  -- `n` events in `time` jiffies, per second.
  abbrev pub per_second : ℕ → ℕ → ℕ → F
  per_second hz n time = mul (div (of_u64 n) (of_u64 time)) (of_u64 hz)

  compute_stat-exact :
      (hz c p itv : ℕ) → p ≤ c → c < u64_mod → compute_stat D hz c p itv ≡ per_second hz (c - p) itv
  unfolding compute_stat
  compute_stat-exact hz c p itv le lt = ap (λ n. per_second hz n itv) (sub64_exact c p le lt)

  compute_stat-sum :
      (hz c c' p p' itv : ℕ)
      → p ≤ c
      → p' ≤ c'
      → c + c' < u64_mod
      → compute_stat D hz (add64 c c') (add64 p p') itv ≡ per_second hz ((c - p) + (c' - p')) itv
  unfolding compute_stat
  compute_stat-sum hz c c' p p' itv le le' lt =
      ap (λ n. per_second hz n itv) (add64-sub64-exact c c' p p' le le' lt)

  -- An entry with the rates of what has happened since an earlier sample.
  abbrev pub with_rates : ℕ → ℕ → Io F → IoStat → Io F
  with_rates hz num_of_cpu curr ps =
      let cs = curr.stat in
      let time = elapsed num_of_cpu ps cs in
      let reads = cs.rd_ios - ps.rd_ios in
      let writes = cs.wr_ios - ps.wr_ios in
      let read_sectors = cs.rd_sectors - ps.rd_sectors in
      let written_sectors = cs.wr_sectors - ps.wr_sectors in
      let read_ticks = cs.rd_ticks - ps.rd_ticks in
      let write_ticks = cs.wr_ticks - ps.wr_ticks in
      record {
        dev = curr.dev;
        tps = per_second hz (reads + writes) time;
        read_byte = read_sectors / factor;
        wrtn_byte = written_sectors / factor;
        rrqm_per_sec = per_second hz (cs.rd_merges - ps.rd_merges) time;
        wrqm_per_sec = per_second hz (cs.wr_merges - ps.wr_merges) time;
        r_per_sec = per_second hz reads time;
        w_per_sec = per_second hz writes time;
        r_speed_per_sec = div (per_second hz read_sectors time) (of_u64 factor);
        w_speed_per_sec = div (per_second hz written_sectors time) (of_u64 factor);
        avgrq_sz = ratio D (read_sectors + written_sectors) (reads + writes);
        avgqu_sz = div (per_second hz (cs.rq_ticks - ps.rq_ticks) time) (of_u64 1000);
        await = ratio D (read_ticks + write_ticks) (reads + writes);
        r_await = ratio D read_ticks reads;
        w_await = ratio D write_ticks writes;
        util = per_second hz (cs.tot_ticks - ps.tot_ticks) time;
        stat = cs;
      }

  -- Between two samples without a wrap-around, all rates of an entry are those of the plain
  -- differences of its counters, and those of the requests of both kinds are sums of the two.
  pub compute_entry-rates :
      (hz num_of_cpu : ℕ) (curr : Io F) (ps : IoStat)
      → IsLater ps curr.stat
      → compute_entry D hz num_of_cpu curr ps ≡ with_rates hz num_of_cpu curr ps
  unfolding compute_entry
  compute_entry-rates hz num_of_cpu curr ps later =
      let cs : IoStat = curr.stat in
      let time : ℕ = elapsed num_of_cpu ps cs in
      rw
        (
          interval-exact num_of_cpu ps cs later,
          compute_stat-sum hz cs.rd_ios cs.wr_ios ps.rd_ios ps.wr_ios time later.rd_ios later.wr_ios
              later.ios,
          compute_stat-exact hz cs.rd_merges ps.rd_merges time later.rd_merges.0 later.rd_merges.1,
          compute_stat-exact hz cs.wr_merges ps.wr_merges time later.wr_merges.0 later.wr_merges.1,
          compute_stat-exact hz cs.rq_ticks ps.rq_ticks time later.rq_ticks.0 later.rq_ticks.1,
          compute_stat-exact hz cs.tot_ticks ps.tot_ticks time later.tot_ticks.0 later.tot_ticks.1,
          compute_stat-exact hz cs.rd_ios ps.rd_ios time later.rd_ios (omega arith),
          compute_stat-exact hz cs.wr_ios ps.wr_ios time later.wr_ios (omega arith),
          compute_stat-exact hz cs.rd_sectors ps.rd_sectors time later.rd_sectors (omega arith),
          compute_stat-exact hz cs.wr_sectors ps.wr_sectors time later.wr_sectors (omega arith),
          add64-sub64-exact cs.rd_ios cs.wr_ios ps.rd_ios ps.wr_ios later.rd_ios later.wr_ios
              later.ios,
          sub64_exact cs.rd_ios ps.rd_ios later.rd_ios (omega arith),
          sub64_exact cs.wr_ios ps.wr_ios later.wr_ios (omega arith),
          sub64_exact cs.rd_sectors ps.rd_sectors later.rd_sectors (omega arith),
          sub64_exact cs.wr_sectors ps.wr_sectors later.wr_sectors (omega arith),
          sub64_exact cs.rd_ticks ps.rd_ticks later.rd_ticks (omega arith),
          sub64_exact cs.wr_ticks ps.wr_ticks later.wr_ticks (omega arith),
          add64_exact (cs.rd_sectors - ps.rd_sectors) (cs.wr_sectors - ps.wr_sectors) (omega arith),
          add64_exact (cs.rd_ticks - ps.rd_ticks) (cs.wr_ticks - ps.wr_ticks) (omega arith),
        )
        refl
