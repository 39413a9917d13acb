-- ===== src/Proc/Stat/Columns.antt =====
-- What `read_pid_stat` reads from a line of /proc/<pid>/stat.
use zsr.Prelude.{
  ℕ, ◌+◌, ◌≤◌, ◌<◌, ◌≡◌, ◌≢◌, refl, sym, ap, ◌∙◌, ◌⊎◌, inl, inr, append-nil, some, List, [], ◌∷◌,
  ◌++◌, Bytes, length, max_u64, All, arith, add64,
}
use zsr.Libc.Scan.{scan_lu_or}
use zsr.Libc.Print.{print_lu}
use zsr.Libc.Print.RoundTrip.{scan_lu_or-print_lu}
use zsr.Proc.{Proc}
use zsr.Proc.Stat.{
  PidStat, until_paren, scan_cmd, scan_c, column, columns, all_columns, with_cpu_time,
}

-- A column that the switch passes over.
abbrev IsSkipped : ℕ → Type 0
IsSkipped i = ((4 < i) × (i < 14)) ⊎ ((15 < i) × (i < 22))

-- A name in parentheses.
abbrev pub in_parens : Bytes → Bytes
in_parens comm = b'(' ∷ (comm ++ b')' ∷ [])

until_paren-append :
    (comm s : Bytes) → All (λ c. c ≢ b')') comm → until_paren (comm ++ b')' ∷ s) ≡ comm
unfolding until_paren
until_paren-append [] s h = refl
until_paren-append (c ∷ comm) s (n, h) = ground (arith, until_paren-append comm s h)

pub scan_cmd-in_parens :
    (old comm : Bytes)
    → All (λ c. c ≢ b')') comm
    → 0 < length comm
    → length comm < 256
    → scan_cmd old (in_parens comm) ≡ some comm
unfolding scan_cmd
scan_cmd-in_parens old [] h pos short = absurd (omega arith)
scan_cmd-in_parens old (c ∷ comm) (n, h) pos short = ground (arith, until_paren-append comm [] h)

until_paren-open : (comm : Bytes) → All (λ c. c ≢ b')') comm → until_paren comm ≡ comm
unfolding until_paren
until_paren-open [] h = refl
until_paren-open (c ∷ comm) (n, h) = ground (arith, until_paren-open comm h)

-- Without a ')' all that stands behind the '(' is the name.
pub scan_cmd-open :
    (old comm : Bytes)
    → All (λ c. c ≢ b')') comm
    → 0 < length comm
    → length comm < 256
    → scan_cmd old (b'(' ∷ comm) ≡ some comm
unfolding scan_cmd
scan_cmd-open old [] h pos short = absurd (omega arith)
scan_cmd-open old (c ∷ comm) (n, h) pos short = ground (arith, until_paren-open comm h)

pub scan_lu_or-token : (old n : ℕ) → n ≤ max_u64 → scan_lu_or old (print_lu n) ≡ n
scan_lu_or-token old n h =
    ap (scan_lu_or old) (sym (append-nil (print_lu n))) ∙ scan_lu_or-print_lu old n [] h tt

module _ {F : Type 0} where
  column-skipped : (i : ℕ) (col : Bytes) (st : PidStat F) → IsSkipped i → column i col st ≡ some st
  unfolding column
  column-skipped i col st h = ground arith

  columns-step :
      (i : ℕ) (col : Bytes) (cols : List Bytes) (st st' : PidStat F)
      → column (i + 1) col st ≡ some st'
      → i + 1 ≢ 22
      → columns i (col ∷ cols) st ≡ columns (i + 1) cols st'
  unfolding columns
  columns-step i col cols st st' h n = ground arith

  columns-skip :
      (i j : ℕ) (skipped cols : List Bytes) (st : PidStat F)
      → i + length skipped ≡ j
      → ((4 ≤ i) × (j < 14)) ⊎ ((15 ≤ i) × (j < 22))
      → columns i (skipped ++ cols) st ≡ columns j cols st
  columns-skip i j [] cols st e h = ap (λ k. columns k cols st) (omega (arith, e))
  columns-skip i j (col ∷ skipped) cols st e h =
      columns-step i col (skipped ++ cols) st st (column-skipped (i + 1) col st (ground arith))
        (ground arith)
      ∙ columns-skip (i + 1) j skipped cols st (omega (arith, e)) (ground arith)

  columns-first :
      (a b c d comm : Bytes) (cols : List Bytes) (p : Proc F)
      → scan_cmd p.cmd b ≡ some comm
      → columns 0 (a ∷ b ∷ c ∷ d ∷ cols) (record { proc = p; utime = 0; stime = 0 })
        ≡ columns 4 cols (record {
          proc = record p {
            pid = scan_lu_or p.pid a;
            cmd = comm;
            state = scan_c p.state c;
            ppid = scan_lu_or p.ppid d;
          };
          utime = 0;
          stime = 0;
        })
  unfolding columns column
  columns-first a b c d comm cols p h = rw (h, columns) refl

  columns-times :
      (u s : Bytes) (cols : List Bytes) (p : Proc F)
      → columns 13 (u ∷ s ∷ cols) (record { proc = p; utime = 0; stime = 0 })
        ≡ columns 15 cols (record { proc = p; utime = scan_lu_or 0 u; stime = scan_lu_or 0 s })
  unfolding columns column
  columns-times u s cols p = refl

  columns-last :
      (x : Bytes) (cols : List Bytes) (st : PidStat F)
      → columns 21 (x ∷ cols) st
        ≡ some
            (record st { proc = record st.proc { start_time = scan_lu_or st.proc.start_time x } })
  unfolding columns column
  columns-last x cols st = refl

  -- The first 22 columns, whatever they are.
  pub columns-all :
      (a b c d : Bytes) (before : List Bytes) (u s : Bytes) (between : List Bytes) (x comm : Bytes)
      (cols : List Bytes) (p : Proc F)
      → scan_cmd p.cmd b ≡ some comm
      → length before ≡ 9
      → length between ≡ 6
      → with_cpu_time (
          all_columns
            (a ∷ b ∷ c ∷ d ∷ (before ++ (u ∷ s ∷ (between ++ (x ∷ cols)))))
            (record { proc = p; utime = 0; stime = 0 }))
        ≡ some (record p {
          pid = scan_lu_or p.pid a;
          cmd = comm;
          state = scan_c p.state c;
          ppid = scan_lu_or p.ppid d;
          cpu_time = add64 (scan_lu_or 0 u) (scan_lu_or 0 s);
          start_time = scan_lu_or p.start_time x;
        })
  columns-all a b c d before u s between x comm cols p h nine six = ap with_cpu_time (
      columns-first a b c d comm (before ++ (u ∷ s ∷ (between ++ (x ∷ cols)))) p h
      ∙ columns-skip 4 13 before (u ∷ s ∷ (between ++ (x ∷ cols))) _ (omega arith)
          (inl (omega arith))
      ∙ columns-times u s (between ++ (x ∷ cols)) _
      ∙ columns-skip 15 21 between (x ∷ cols) _ (omega arith) (inr (omega arith))
      ∙ columns-last x cols _)
