-- ===== src/Modules/Sized/Readers.antt =====
-- The readers fill their structures with values of the types, whatever the files hold.
use zsr.Prelude.{
  ℕ, zero, suc, inl, inr, Option, none, some, List, [], ◌∷◌, Bytes, codes, get_or, drop, All,
  Bool-cases, sub64, arith,
}
use zsr.Libc.Text.{starts_with}
use zsr.Libc.Lines.{lines}
use zsr.Libc.Scan.{scan_lu, scan_lu_or, scan_lus}
use zsr.Libc.Scan.Range.{Ranged, scan_lu-range, scan_lu_or-range}
use zsr.Uptime.{Uptime, set_uptime, read_uptime_stat}
use zsr.Meminfo.{MemStat, read_mem_lines, read_mem_stat, SwapStat, read_swap_lines, read_swap_stat}
use zsr.Cpu.{CpuStat, assign, read_cpu_lines, read_cpu_stat}
use zsr.Modules.Sized.{IsU64, SizedUptime, SizedMem, SizedSwap, SizedCpuStat}

set_uptime-Sized : (n : ℕ) → IsU64 n → SizedUptime (set_uptime n)
unfolding set_uptime
set_uptime-Sized n h = record {
  total_sec = h;
  year = omega arith;
  month = omega arith;
  day = omega arith;
  hour = omega arith;
  minute = omega arith;
}

pub read_uptime_stat-Sized :
    (text : Option Bytes) (up : Uptime) → SizedUptime up → SizedUptime (read_uptime_stat text up).0
unfolding read_uptime_stat
read_uptime_stat-Sized none up h = h
read_uptime_stat-Sized (some text) up h =
    set_uptime-Sized (scan_lu_or 0 text) (scan_lu_or-range 0 text (omega arith))

mem_lines-Sized : (bufs : List Bytes) (m : MemStat) → SizedMem m → SizedMem (read_mem_lines bufs m)
unfolding read_mem_lines
mem_lines-Sized [] m h = h
mem_lines-Sized (buf ∷ bufs) m h = elim (Bool-cases (starts_with (codes "MemTotal:") buf)) [
  | inl total ↦
      rw (total, read_mem_lines)
        (mem_lines-Sized bufs (record m { total_kb = scan_lu_or m.total_kb (drop 9 buf) })
          (record {
            total_kb = scan_lu_or-range m.total_kb (drop 9 buf) h.total_kb;
            used_kb = h.used_kb;
            free_kb = h.free_kb;
          }))
  | inr other ↦ elim (Bool-cases (starts_with (codes "MemFree:") buf)) [
    | inl free ↦
        rw (other, free, read_mem_lines)
          (mem_lines-Sized bufs (record m { free_kb = scan_lu_or m.free_kb (drop 8 buf) })
            (record {
              total_kb = h.total_kb;
              used_kb = h.used_kb;
              free_kb = scan_lu_or-range m.free_kb (drop 8 buf) h.free_kb;
            }))
    | inr end ↦ rw (other, end, read_mem_lines) h
  ]
]

pub read_mem_stat-Sized :
    (text : Option Bytes) (m : MemStat) → SizedMem m → SizedMem (read_mem_stat text m).0
unfolding read_mem_stat sub64
read_mem_stat-Sized none m h = h
read_mem_stat-Sized (some text) m h =
    let h' = mem_lines-Sized (lines 128 text) m h in
    record { total_kb = h'.total_kb; used_kb = omega arith; free_kb = h'.free_kb }

swap_lines-Sized :
    (bufs : List Bytes) (m : SwapStat) → SizedSwap m → SizedSwap (read_swap_lines bufs m)
unfolding read_swap_lines
swap_lines-Sized [] m h = h
swap_lines-Sized (buf ∷ bufs) m h = elim (Bool-cases (starts_with (codes "SwapTotal:") buf)) [
  | inl total ↦
      rw (total, read_swap_lines)
        (swap_lines-Sized bufs (record m { total_kb = scan_lu_or m.total_kb (drop 10 buf) })
          (record {
            total_kb = scan_lu_or-range m.total_kb (drop 10 buf) h.total_kb;
            used_kb = h.used_kb;
            free_kb = h.free_kb;
          }))
  | inr other ↦ elim (Bool-cases (starts_with (codes "SwapFree:") buf)) [
    | inl free ↦
        rw (other, free, read_swap_lines)
          (record {
            total_kb = h.total_kb;
            used_kb = h.used_kb;
            free_kb = scan_lu_or-range m.free_kb (drop 9 buf) h.free_kb;
          })
    | inr next ↦ rw (other, next, read_swap_lines) (swap_lines-Sized bufs m h)
  ]
]

pub read_swap_stat-Sized :
    (text : Option Bytes) (m : SwapStat) → SizedSwap m → SizedSwap (read_swap_stat text m).0
unfolding read_swap_stat sub64
read_swap_stat-Sized none m h = h
read_swap_stat-Sized (some text) m h =
    let h' = swap_lines-Sized (lines 128 text) m h in
    record { total_kb = h'.total_kb; used_kb = omega arith; free_kb = h'.free_kb }

pub get_or-range : (vs : List ℕ) (i d : ℕ) → All IsU64 vs → IsU64 d → IsU64 (get_or vs i d)
get_or-range [] i d h g = g
get_or-range (v ∷ vs) zero d (x, h) g = x
get_or-range (v ∷ vs) (suc i) d (x, h) g = get_or-range vs i d h g

lus-step :
    (k : ℕ) (o : Option (ℕ × Bytes))
    → Ranged o
    → ((r : Bytes) → All IsU64 (scan_lus k r))
    → All IsU64 (elim o as (λ x. List ℕ) [ none ↦ [] | some (n, r) ↦ n ∷ scan_lus k r ])
lus-step k none h rest = tt
lus-step k (some (n, r)) h rest = (h, rest r)

pub scan_lus-range : (k : ℕ) (s : Bytes) → All IsU64 (scan_lus k s)
unfolding scan_lus
scan_lus-range zero s = tt
scan_lus-range (suc k) s = lus-step k (scan_lu s) (scan_lu-range s) (scan_lus-range k)

assign-Sized :
    (vs : List ℕ) (c : CpuStat) → All IsU64 vs → SizedCpuStat c → SizedCpuStat (assign vs c)
unfolding assign
assign-Sized vs c fit h = record {
  user = get_or-range vs 0 c.user fit h.user;
  nice = get_or-range vs 1 c.nice fit h.nice;
  sys = get_or-range vs 2 c.sys fit h.sys;
  idle = get_or-range vs 3 c.idle fit h.idle;
  iowait = get_or-range vs 4 c.iowait fit h.iowait;
  steal = get_or-range vs 5 c.steal fit h.steal;
  hardirq = get_or-range vs 6 c.hardirq fit h.hardirq;
  softirq = get_or-range vs 7 c.softirq fit h.softirq;
  guest = get_or-range vs 8 c.guest fit h.guest;
  number = get_or-range vs 9 c.number fit h.number;
}

cpu_lines-Sized :
    (bufs : List Bytes) (c : CpuStat) → SizedCpuStat c → SizedCpuStat (read_cpu_lines bufs c)
unfolding read_cpu_lines
cpu_lines-Sized [] c h = h
cpu_lines-Sized (buf ∷ bufs) c h = elim (Bool-cases (starts_with (codes "cpu ") buf)) [
  | inl cpu ↦ rw cpu (assign-Sized (scan_lus 10 (drop 4 buf)) c (scan_lus-range 10 (drop 4 buf)) h)
  | inr other ↦ rw other (cpu_lines-Sized bufs c h)
]

pub read_cpu_stat-Sized :
    (text : Option Bytes) (c : CpuStat) → SizedCpuStat c → SizedCpuStat (read_cpu_stat text c).0
unfolding read_cpu_stat
read_cpu_stat-Sized none c h = h
read_cpu_stat-Sized (some text) c h = cpu_lines-Sized (lines 128 text) c h
