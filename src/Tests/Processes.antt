-- ===== src/Tests/Processes.antt =====
-- All processes of a machine that runs one.
use zsr.Prelude.{◌≡◌, refl, true, false, none, some, List, [], ◌∷◌, codes, arith}
use zsr.Libc.Text.{starts_with}
use zsr.Libc.Print.{print_lu}
use zsr.Common.{is_digit}
use zsr.Cpu.{read_cpu_stat, zero_cpu_stat}
use zsr.Double.{symbolic}
use zsr.Proc.Status.{Passwd, Users}
use zsr.Proc.Status.Reading.{StatusText, IsStatus}
use zsr.Proc.Listing.{DirEntry, ProcSystem, is_process, get_all_proc}
use zsr.Proc.Listing.Processes.{
  Process, IsShown, Entry, process, another, dir_entries, procs_of, get_all_proc-shown,
}
use zsr.Tests.Listings.{bash_line, bash_line-IsLine}

abbrev bash_status : StatusText
bash_status = record {
  before = codes "Name:\tbash" ∷ codes "State:\tS (sleeping)" ∷ [];
  uid = 1000;
  uids = codes "\t1000\t1000\t1000";
  between = codes "Gid:\t100\t100\t100\t100" ∷ codes "VmPeak:\t  113260 kB" ∷ [];
  size_pad = 2;
  size_kb = 113260;
  between' = codes "VmLck:\t       0 kB" ∷ [];
  rss_pad = 4;
  rss_kb = 5120;
  rest = codes "Threads:\t1\n";
}

bash_status-IsStatus : IsStatus bash_status
unfolding print_lu starts_with
bash_status-IsStatus = record {
  lines = omega arith;
  before = (
    record { no_uid = refl; no_size = refl; no_rss = refl },
    (record { no_uid = refl; no_size = refl; no_rss = refl }, tt),
  );
  between = (
    record { no_uid = refl; no_size = refl; no_rss = refl },
    (record { no_uid = refl; no_size = refl; no_rss = refl }, tt),
  );
  between' = (record { no_uid = refl; no_size = refl; no_rss = refl }, tt);
  uid = omega arith;
  uids = refl;
  size = omega arith;
  rss = omega arith;
}

abbrev alice : Passwd
alice = record { pw_name = codes "alice"; pw_gid = 100 }

abbrev pub bash : Process
bash = record {
  stat = bash_line;
  stat_more = codes "115978240 1280";
  stat_rest = [];
  status = bash_status;
  exe = codes "/usr/bin/bash";
  passwd = alice;
  group = codes "users";
}

-- A machine with one user.
abbrev pub one_user : Users
one_user = record { getpwuid = λ uid. some alice; getgrgid = λ gid. some (codes "users") }

pub bash-IsShown : IsShown one_user bash
bash-IsShown = record {
  stat = bash_line-IsLine;
  status = bash_status-IsStatus;
  exe = omega arith;
  names = record {
    entry = refl;
    user_short = omega arith;
    group_entry = refl;
    group_short = omega arith;
  };
}

abbrev pub proc_dot : DirEntry
proc_dot = record { name = codes "."; is_dir = true; stat = none; status = none; exe = none }

abbrev pub proc_uptime : DirEntry
proc_uptime = record {
  name = codes "uptime";
  is_dir = false;
  stat = none;
  status = none;
  exe = none;
}

abbrev proc_entries : List Entry
proc_entries = another proc_dot ∷ process bash ∷ another proc_uptime ∷ []

abbrev pub proc_system : ProcSystem
proc_system = record {
  cpu = some (codes "cpu  4705 150 1120 16250 520 0 17 0 0 0\n");
  entries = some (dir_entries proc_entries);
  users = one_user;
  totalram = some 16384000;
}

get_all_proc-shown_example : get_all_proc symbolic proc_system ≡ (
  some (procs_of symbolic proc_system (read_cpu_stat proc_system.cpu zero_cpu_stat).0 proc_entries),
  [],
)
unfolding read_cpu_stat is_process starts_with is_digit
get_all_proc-shown_example =
    get_all_proc-shown symbolic proc_system (read_cpu_stat proc_system.cpu zero_cpu_stat).0
      proc_entries refl (refl, (bash-IsShown, (refl, tt))) refl
