-- ===== src/Cpu/Reading.antt =====
-- What is read from /proc/stat.
use zsr.Prelude.{
  ℕ, ◌≤◌, ◌≡◌, refl, some, List, [], ◌∷◌, ◌++◌, Bytes, codes, length, max_u64, All, All-append,
  arith,
}
use zsr.Libc.Text.{starts_with}
use zsr.Libc.Lines.{lines-line, newline, NoNewline}
use zsr.Libc.Print.Fields.{print_fields, scan_lus-print_fields, print_fields-NoNewline}
use zsr.Cpu.{CpuStat, assign, read_cpu_lines, read_cpu_stat}

-- What the kernel counts, by its names in proc(5).
pub record CpuTimes : Type 0 where
  pub user : ℕ
  pub nice : ℕ
  pub system : ℕ
  pub idle : ℕ
  pub iowait : ℕ
  pub irq : ℕ
  pub softirq : ℕ
  pub steal : ℕ
  pub guest : ℕ
  pub guest_nice : ℕ

-- The order of proc(5), in which the kernel prints them.
abbrev pub times : CpuTimes → List ℕ
times t =
    t.user ∷ t.nice ∷ t.system ∷ t.idle ∷ t.iowait ∷ t.irq ∷ t.softirq ∷ t.steal ∷ t.guest
    ∷ t.guest_nice ∷ []

-- Where read_cpu_stat stores them: columns 6 to 8 go to the wrong fields.
abbrev pub stored : CpuTimes → CpuStat
stored t = record {
  user = t.user;
  nice = t.nice;
  sys = t.system;
  idle = t.idle;
  iowait = t.iowait;
  steal = t.irq;
  hardirq = t.softirq;
  softirq = t.steal;
  guest = t.guest;
  number = t.guest_nice;
}

-- The line of the file that sums up all processors.
abbrev pub cpu_line : CpuTimes → Bytes
cpu_line t = codes "cpu " ++ print_fields (times t)

cpu_line-NoNewline : (t : CpuTimes) → NoNewline (cpu_line t)
cpu_line-NoNewline t =
    All-append _ (codes "cpu ") (print_fields (times t)) (omega arith)
      (print_fields-NoNewline (times t))

read_cpu_lines-line :
    (t : CpuTimes) (old : CpuStat) (bufs : List Bytes)
    → All (λ n. n ≤ max_u64) (times t)
    → read_cpu_lines ((cpu_line t ++ newline ∷ []) ∷ bufs) old ≡ stored t
unfolding read_cpu_lines assign starts_with
read_cpu_lines-line t old bufs fit =
    rw (scan_lus-print_fields (times t) (newline ∷ []) fit refl) refl

-- From a file that begins with the summary line in the order of proc(5), if it fits into the buffer and each
-- counter into 64 bits, all ten counters are read back; but the time of interrupts is stored as the
-- stolen time, that of soft interrupts as the one of interrupts, and the stolen time as the one of
-- soft interrupts. Nothing is logged.
pub read_cpu_stat-line :
    (t : CpuTimes) (old : CpuStat) (rest : Bytes)
    → All (λ n. n ≤ max_u64) (times t)
    → length (cpu_line t) ≤ 126
    → read_cpu_stat (some (cpu_line t ++ newline ∷ rest)) old ≡ (stored t, [])
unfolding read_cpu_stat
read_cpu_stat-line c old rest fit short =
    rw
      (
        lines-line 126 (cpu_line c) rest (cpu_line-NoNewline c) short,
        read_cpu_lines-line c old _ fit,
      )
      refl
