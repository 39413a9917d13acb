-- ===== src/Cpu/Share.antt =====
-- The shares that are computed between two samples.
use zsr.Prelude.{ℕ, ◌+◌, ◌-◌, ◌≤◌, ◌<◌, ◌≡◌, ◌⊎◌, refl, arith, u64_mod, add64, sub64, none, some}
use zsr.Double.{Double}
use zsr.Cpu.{CpuStat, Cpu, sum_cpu_stat, compute_cpu_stat}
use zsr.Cpu.Sum.{ticks}

-- The second sample was taken after the first, and no counter has wrapped around in between.
pub record IsLater (ps cs : CpuStat) : Type 0 where
  pub user : ps.user ≤ cs.user
  pub nice : ps.nice ≤ cs.nice
  pub sys : ps.sys ≤ cs.sys
  pub idle : ps.idle ≤ cs.idle
  pub iowait : ps.iowait ≤ cs.iowait
  pub steal : ps.steal ≤ cs.steal
  pub hardirq : ps.hardirq ≤ cs.hardirq
  pub softirq : ps.softirq ≤ cs.softirq
  pub fits : ticks cs < u64_mod

-- The ticks of a later sample that were idle or stolen since an earlier one, those spent waiting, and
-- all of them.
abbrev pub idle_ticks : CpuStat → CpuStat → ℕ
idle_ticks ps cs = (cs.idle - ps.idle) + (cs.steal - ps.steal)

abbrev pub wait_ticks : CpuStat → CpuStat → ℕ
wait_ticks ps cs = cs.iowait - ps.iowait

abbrev pub all_ticks : CpuStat → CpuStat → ℕ
all_ticks ps cs = ticks cs - ticks ps

module _ (D : Double) where
  open D use {F, of_u64, sub, mul, div}

  -- `n` of `total` in percent, as the code computes it.
  abbrev pub percent : ℕ → ℕ → F
  percent n total = div (mul (of_u64 n) (of_u64 100)) (of_u64 total)

  abbrev pub with_shares : CpuStat → CpuStat → Cpu F
  with_shares ps cs =
      let idle = percent (idle_ticks ps cs) (all_ticks ps cs) in
      record {
        idle = idle;
        util = sub (of_u64 100) idle;
        wa = percent (wait_ticks ps cs) (all_ticks ps cs);
        stat = cs;
      }

  -- Between two samples with ticks in between, the idle share is that of the idle and stolen ticks,
  -- the waiting share that of the ticks spent waiting, and both together are among the ticks that
  -- passed, which are not none. The counters of the record stay.
  pub compute_cpu_stat-shares :
      (cur pre : Cpu F)
      → IsLater pre.stat cur.stat
      → 0 < ticks pre.stat
      → ticks pre.stat < ticks cur.stat
      → (compute_cpu_stat D (some cur) (some pre) ≡ some (with_shares pre.stat cur.stat))
        × (idle_ticks pre.stat cur.stat + wait_ticks pre.stat cur.stat
            ≤ all_ticks pre.stat cur.stat)
        × (0 < all_ticks pre.stat cur.stat)
  unfolding compute_cpu_stat sum_cpu_stat add64 sub64
  compute_cpu_stat-shares cur pre later some_ticks passed = (ground arith, omega arith, omega arith)

  -- When the earlier total is zero, or both totals agree, or there is no earlier record, the later
  -- record is left as it is: nothing is divided by zero.
  compute_cpu_stat-unchanged :
      (cur pre : Cpu F)
      → (sum_cpu_stat pre.stat ≡ 0) ⊎ (sum_cpu_stat pre.stat ≡ sum_cpu_stat cur.stat)
      → (compute_cpu_stat D (some cur) (some pre) ≡ some cur)
        × (compute_cpu_stat D (some cur) none ≡ some cur)
  unfolding compute_cpu_stat sum_cpu_stat sub64
  compute_cpu_stat-unchanged cur pre h = (ground arith, refl)
