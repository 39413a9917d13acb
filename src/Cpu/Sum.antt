-- ===== src/Cpu/Sum.antt =====
-- What the total of the counters counts.
use zsr.Prelude.{ℕ, ◌+◌, ◌<◌, ◌≡◌, arith, u64_mod}
use zsr.Cpu.{CpuStat, sum_cpu_stat}

-- The eight counters that are disjoint, with no bound.
abbrev pub ticks : CpuStat → ℕ
ticks s = s.user + s.nice + s.sys + s.idle + s.iowait + s.steal + s.hardirq + s.softirq

-- If the disjoint counters fit into 64 bits together, their total is exact, and the guest counters,
-- which are part of others, are not counted again.
pub sum_cpu_stat-ticks :
    (s : CpuStat) (guest number : ℕ)
    → ticks s < u64_mod
    → sum_cpu_stat (record s { guest = guest; number = number }) ≡ ticks s
unfolding sum_cpu_stat
sum_cpu_stat-ticks s guest number h = omega arith
