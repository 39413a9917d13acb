-- ===== src/Proc/Stat/Line.antt =====
-- `read_pid_stat` on a line whose name has no space, and on one whose name has a space.
use zsr.Prelude.{
  ℕ, ◌≤◌, ◌<◌, ◌≡◌, ◌≢◌, refl, ◌∙◌, some, List, [], ◌∷◌, ◌++◌, append_assoc, Bytes, length, max_u64,
  All, arith, add64,
}
use zsr.Libc.Lines.{newline, fgets-line, FitsBuffer}
use zsr.Libc.Scan.{scan_lu_or}
use zsr.Libc.Tokens.{tokens, IsToken, join_tokens, tokens-join_tokens}
use zsr.Libc.Print.{print_lu}
use zsr.Proc.{Proc}
use zsr.Proc.Stat.{scan_c, scan_cmd, all_columns, with_cpu_time, read_pid_stat}
use zsr.Proc.Stat.Columns.{
  in_parens, scan_cmd-in_parens, scan_cmd-open, scan_lu_or-token, columns-all,
}

-- The columns that are read, and those in between.
pub record PidLine : Type 0 where
  pub pid : ℕ
  pub comm : Bytes
  pub state : ℕ
  pub ppid : ℕ
  pub before : List Bytes
  pub utime : ℕ
  pub stime : ℕ
  pub between : List Bytes
  pub start_time : ℕ

abbrev pub pid_tokens : PidLine → List Bytes
pid_tokens l =
    print_lu l.pid
    ∷ in_parens l.comm
    ∷ (l.state ∷ [])
    ∷ print_lu l.ppid
    ∷ (l.before
        ++ (print_lu l.utime ∷ print_lu l.stime ∷ (l.between ++ (print_lu l.start_time ∷ []))))

-- The columns are separated by single spaces, and the line with what follows them fits the buffer.
pub record IsLine (l : PidLine) (more : Bytes) : Type 0 where
  pub tokens : All IsToken (pid_tokens l)
  pub line : FitsBuffer 512 (join_tokens (pid_tokens l) ++ more)
  pub before : length l.before ≡ 9
  pub between : length l.between ≡ 6
  pub comm : All (λ c. c ≢ b')') l.comm
  pub comm_some : 0 < length l.comm
  pub comm_short : length l.comm < 256
  pub numbers : All (λ n. n ≤ max_u64) (l.pid ∷ l.ppid ∷ l.utime ∷ l.stime ∷ l.start_time ∷ [])

-- A line whose name is two words.
pub record SpacedLine : Type 0 where
  pub pid : ℕ
  pub first : Bytes
  pub second : Bytes
  pub state : ℕ
  pub ppid : ℕ
  -- columns 5 to 12
  pub before : List Bytes
  pub column_13 : ℕ
  pub utime : ℕ
  pub stime : ℕ
  -- columns 16 to 20
  pub between : List Bytes
  pub column_21 : ℕ
  pub start_time : ℕ

-- The runs of bytes between the spaces: the name is spread over two of them.
abbrev pub spaced_tokens : SpacedLine → List Bytes
spaced_tokens l =
    print_lu l.pid
    ∷ (b'(' ∷ l.first)
    ∷ (l.second ++ b')' ∷ [])
    ∷ (l.state ∷ [])
    ∷ ((print_lu l.ppid ∷ l.before)
        ++ (print_lu l.column_13
            ∷ print_lu l.utime
            ∷ ((print_lu l.stime ∷ l.between)
                ++ (print_lu l.column_21 ∷ (print_lu l.start_time ∷ [])))))

pub record IsSpacedLine (l : SpacedLine) (more : Bytes) : Type 0 where
  pub tokens : All IsToken (spaced_tokens l)
  pub line : FitsBuffer 512 (join_tokens (spaced_tokens l) ++ more)
  pub before : length l.before ≡ 8
  pub between : length l.between ≡ 5
  pub first : All (λ c. c ≢ b')') l.first
  pub first_some : 0 < length l.first
  pub first_short : length l.first < 256
  pub numbers : All (λ n. n ≤ max_u64) (l.pid ∷ l.column_13 ∷ l.utime ∷ l.column_21 ∷ [])

module _ {F : Type 0} where
  read_pid_stat-tokens :
      (pid : Bytes) (ts : List Bytes) (more rest : Bytes) (p : Proc F)
      → All IsToken ts
      → FitsBuffer 512 (join_tokens ts ++ more)
      → read_pid_stat pid (some ((join_tokens ts ++ more) ++ newline ∷ rest)) p ≡ (
        with_cpu_time (
            all_columns
              (ts ++ tokens (more ++ newline ∷ []))
              (record { proc = p; utime = 0; stime = 0 })),
        [],
      )
  unfolding read_pid_stat
  read_pid_stat-tokens pid ts more rest p is_token fits =
      rw
        (
          fgets-line 510 (join_tokens ts ++ more) rest fits.clean (omega (arith, fits.short)),
          append_assoc (join_tokens ts) more (newline ∷ []),
          tokens-join_tokens ts (more ++ newline ∷ []) is_token,
        )
        refl

  -- Of any line, by what `sscanf` makes of the columns.
  read_pid_stat-columns :
      (name a b c d : Bytes) (before : List Bytes) (u s : Bytes) (between : List Bytes) (x : Bytes)
      (tail : List Bytes) (comm more rest : Bytes) (p : Proc F)
      → All IsToken (a ∷ b ∷ c ∷ d ∷ (before ++ (u ∷ s ∷ (between ++ (x ∷ tail)))))
      → FitsBuffer 512
          (join_tokens (a ∷ b ∷ c ∷ d ∷ (before ++ (u ∷ s ∷ (between ++ (x ∷ tail))))) ++ more)
      → scan_cmd p.cmd b ≡ some comm
      → length before ≡ 9
      → length between ≡ 6
      → read_pid_stat name
          (some (
            (join_tokens (a ∷ b ∷ c ∷ d ∷ (before ++ (u ∷ s ∷ (between ++ (x ∷ tail))))) ++ more)
            ++ newline ∷ rest))
          p
        ≡ (
          some (record p {
            pid = scan_lu_or p.pid a;
            cmd = comm;
            state = scan_c p.state c;
            ppid = scan_lu_or p.ppid d;
            cpu_time = add64 (scan_lu_or 0 u) (scan_lu_or 0 s);
            start_time = scan_lu_or p.start_time x;
          }),
          [],
        )
  read_pid_stat-columns name a b c d before u s between x tail comm more rest p is_token fits h nine
        six =
      read_pid_stat-tokens name (a ∷ b ∷ c ∷ d ∷ (before ++ (u ∷ s ∷ (between ++ (x ∷ tail))))) more
        rest p is_token fits
      ∙ rw
          (
            append_assoc before (u ∷ s ∷ (between ++ (x ∷ tail))) behind,
            append_assoc between (x ∷ tail) behind,
            columns-all a b c d before u s between x comm (tail ++ behind) p h nine six,
          )
          refl
    where
      behind : List Bytes
      behind = tokens (more ++ newline ∷ [])

  -- From a line whose name has neither a space nor a ')', the columns are stored in their fields,
  -- and the time of the process is the sum of the user and the system time, modulo 2 ^ 64.
  pub read_pid_stat-line :
      (name : Bytes) (l : PidLine) (more rest : Bytes) (p : Proc F)
      → IsLine l more
      → read_pid_stat name (some ((join_tokens (pid_tokens l) ++ more) ++ newline ∷ rest)) p ≡ (
        some (record p {
          pid = l.pid;
          cmd = l.comm;
          state = l.state;
          ppid = l.ppid;
          cpu_time = add64 l.utime l.stime;
          start_time = l.start_time;
        }),
        [],
      )
  read_pid_stat-line name l more rest p is_line =
      let (pid, (ppid, (utime, (stime, (start_time, end))))) = is_line.numbers in
      read_pid_stat-columns name (print_lu l.pid) (in_parens l.comm) (l.state ∷ [])
        (print_lu l.ppid) l.before (print_lu l.utime) (print_lu l.stime) l.between
        (print_lu l.start_time) [] l.comm more rest p is_line.tokens is_line.line
        (scan_cmd-in_parens p.cmd l.comm is_line.comm is_line.comm_some is_line.comm_short)
        is_line.before is_line.between
      ∙ rw
          (
            scan_lu_or-token p.pid l.pid pid,
            scan_lu_or-token p.ppid l.ppid ppid,
            scan_lu_or-token 0 l.utime utime,
            scan_lu_or-token 0 l.stime stime,
            scan_lu_or-token p.start_time l.start_time start_time,
          )
          refl

  -- Where the name is two words with a space in between, only the first word is stored, the state is
  -- the first byte of the second one, the parent is read from the column of the state, the time is
  -- the sum of column 13 and the user time, and the start time is that of column 21.
  pub read_pid_stat-space :
      (name : Bytes) (l : SpacedLine) (more rest : Bytes) (p : Proc F)
      → IsSpacedLine l more
      → read_pid_stat name (some ((join_tokens (spaced_tokens l) ++ more) ++ newline ∷ rest)) p ≡ (
        some (record p {
          pid = l.pid;
          cmd = l.first;
          state = scan_c p.state (l.second ++ b')' ∷ []);
          ppid = scan_lu_or p.ppid (l.state ∷ []);
          cpu_time = add64 l.column_13 l.utime;
          start_time = l.column_21;
        }),
        [],
      )
  read_pid_stat-space name l more rest p is_line =
      let (pid, (column_13, (utime, (column_21, end)))) = is_line.numbers in
      read_pid_stat-columns name (print_lu l.pid) (b'(' ∷ l.first) (l.second ++ b')' ∷ [])
        (l.state ∷ []) (print_lu l.ppid ∷ l.before) (print_lu l.column_13) (print_lu l.utime)
        (print_lu l.stime ∷ l.between) (print_lu l.column_21) (print_lu l.start_time ∷ []) l.first
        more rest p is_line.tokens is_line.line
        (scan_cmd-open p.cmd l.first is_line.first is_line.first_some is_line.first_short)
        (omega (arith, is_line.before)) (omega (arith, is_line.between))
      ∙ rw
          (
            scan_lu_or-token p.pid l.pid pid,
            scan_lu_or-token 0 l.column_13 column_13,
            scan_lu_or-token 0 l.utime utime,
            scan_lu_or-token p.start_time l.column_21 column_21,
          )
          refl
