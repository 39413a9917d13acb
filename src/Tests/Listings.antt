-- ===== src/Tests/Listings.antt =====
-- The readers of /proc/diskstats, /proc/<pid>/stat and the number of processors.
use zsr.Prelude.{
  ℕ, ◌≡◌, refl, inl, inr, none, some, [], ◌∷◌, ◌++◌, Bytes, codes, map, All, arith, add64,
}
use zsr.Libc.Text.{starts_with}
use zsr.Libc.Lines.{lines, join_lines, newline}
use zsr.Libc.Scan.{scan_lu_or, scan_d, scan_word, scan_lus}
use zsr.Libc.Tokens.{join_tokens}
use zsr.Libc.Print.{print_lu}
use zsr.Double.{symbolic}
use zsr.Cpu.{read_cpu_stat, sum_cpu_stat}
use zsr.Cpu.Count
use zsr.Cpu.Count.{is_cpu_line, count_lines, larger, get_num_of_cpu}
use zsr.Cpu.Count.Largest.{IsNumbered, IsAbove, get_num_of_cpu-IsAbove}
use zsr.Io.Clock.{get_cpu_time_in_jiffies}
use zsr.Io.Listing.{IoSystem, listed, unknown_diskstats, scan_disk, read_io_stat}
use zsr.Io.Listing.Entries.{Disk, Fits, disk_line, entry_of, read_io_stat-lines}
use zsr.Proc.Listing.{zero_proc}
use zsr.Proc.Stat.{scan_c, read_pid_stat}
use zsr.Proc.Stat.Line.{
  PidLine, IsLine, SpacedLine, IsSpacedLine, spaced_tokens, read_pid_stat-space,
}

abbrev stat_text : Bytes
stat_text = codes "cpu  1 2 3\ncpu0 1 2 3\ncpu1 0 0 0\nintr 5\n"

stat_text-IsNumbered : All IsNumbered (lines 16 stat_text)
unfolding lines is_cpu_line starts_with scan_d
stat_text-IsNumbered = (inl refl, (inr (0, (refl, refl)), (inr (1, (refl, refl)), (inl refl, tt))))

get_num_of_cpu-IsAbove_example :
    (n : ℕ) × (get_num_of_cpu (some stat_text) [] ≡ Count.returned n)
    × IsAbove (lines 16 stat_text) 0 n
get_num_of_cpu-IsAbove_example = get_num_of_cpu-IsAbove stat_text [] stat_text-IsNumbered

abbrev pub io_system : IoSystem
io_system = record {
  ticks = some 100;
  stat = some (codes "cpu  1 2 3\ncpu0 1 2 3\n");
  uptime = none;
  diskstats = none;
  error = [];
}

abbrev pub sda : Disk
sda = record {
  pad = 3;
  pad' = 6;
  major = 8;
  minor = 0;
  dev = codes "sda";
  counters = record {
    rd_ios = 10;
    rd_merges = 1;
    rd_sectors = 200;
    rd_ticks = 30;
    wr_ios = 4;
    wr_merges = 0;
    wr_sectors = 64;
    wr_ticks = 9;
    ios_pgr = 0;
    tot_ticks = 25;
    rq_ticks = 39;
  };
  more = codes " 0 0 0 0";
}

pub sda-Fits : Fits sda
unfolding print_lu
sda-Fits = record {
  line = omega arith;
  major = omega arith;
  minor = omega arith;
  dev = (refl, (refl, (refl, tt)));
  short = omega arith;
  counters = omega arith;
  more = refl;
}

-- The line of a partition on an old kernel has seven columns.
read_io_stat-lines_example :
    (read_io_stat symbolic
        (record io_system { diskstats = some (join_lines (map disk_line (sda ∷ []))) })
      ≡ listed (map (entry_of symbolic 6 0) (sda ∷ [])) [])
    × (read_io_stat symbolic (record io_system {
      diskstats =
          some
            (join_lines (map disk_line (sda ∷ [])) ++ (codes "8 1 sda1 5 10 0 0" ++ newline ∷ []));
    })
        ≡ listed (map (entry_of symbolic 6 0) (sda ∷ [])) (unknown_diskstats ∷ []))
unfolding get_num_of_cpu count_lines larger is_cpu_line starts_with scan_d lines
    get_cpu_time_in_jiffies read_cpu_stat sum_cpu_stat scan_disk scan_word scan_lus
read_io_stat-lines_example =
    read_io_stat-lines symbolic io_system 100 1 6 0 (sda ∷ []) (codes "8 1 sda1 5 10 0 0") [] refl
      refl refl refl (sda-Fits, tt) (omega arith) refl

abbrev pub bash_line : PidLine
bash_line = record {
  pid = 1234;
  comm = codes "bash";
  state = b'S';
  ppid = 1;
  before =
      codes "1234"
      ∷ codes "1234"
      ∷ codes "34816"
      ∷ codes "-1"
      ∷ codes "4194304"
      ∷ codes "700"
      ∷ codes "0"
      ∷ codes "2"
      ∷ codes "0"
      ∷ [];
  utime = 12;
  stime = 5;
  between = codes "0" ∷ codes "0" ∷ codes "20" ∷ codes "0" ∷ codes "1" ∷ codes "0" ∷ [];
  start_time = 8871;
}

pub bash_line-IsLine : IsLine bash_line (codes "115978240 1280")
unfolding print_lu
bash_line-IsLine = record {
  tokens = omega arith;
  line = omega arith;
  before = refl;
  between = refl;
  comm = omega arith;
  comm_some = omega arith;
  comm_short = omega arith;
  numbers = omega arith;
}

-- A process named "tmux: server".
abbrev tmux_line : SpacedLine
tmux_line = record {
  pid = 77;
  first = codes "tmux:";
  second = codes "server";
  state = b'S';
  ppid = 1;
  before =
      codes "77"
      ∷ codes "77"
      ∷ codes "0"
      ∷ codes "-1"
      ∷ codes "4194368"
      ∷ codes "900"
      ∷ codes "0"
      ∷ codes "3"
      ∷ [];
  column_13 = 0;
  utime = 40;
  stime = 9;
  between = codes "0" ∷ codes "0" ∷ codes "20" ∷ codes "0" ∷ codes "1" ∷ [];
  column_21 = 0;
  start_time = 5512;
}

tmux_line-IsSpacedLine : IsSpacedLine tmux_line (codes "30617600 800")
unfolding print_lu
tmux_line-IsSpacedLine = record {
  tokens = omega arith;
  line = omega arith;
  before = refl;
  between = refl;
  first = omega arith;
  first_some = omega arith;
  first_short = omega arith;
  numbers = omega arith;
}

read_pid_stat-space_example :
    read_pid_stat
      (codes "77")
      (some ((join_tokens (spaced_tokens tmux_line) ++ codes "30617600 800") ++ newline ∷ []))
      (zero_proc symbolic)
    ≡ (
      some (record (zero_proc symbolic) {
        pid = 77;
        cmd = codes "tmux:";
        state = scan_c 0 (codes "server" ++ b')' ∷ []);
        ppid = scan_lu_or 0 (b'S' ∷ []);
        cpu_time = add64 0 40;
        start_time = 0;
      }),
      [],
    )
read_pid_stat-space_example =
    read_pid_stat-space (codes "77") tmux_line (codes "30617600 800") [] (zero_proc symbolic)
      tmux_line-IsSpacedLine
