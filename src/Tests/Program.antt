-- ===== src/Tests/Program.antt =====
-- The whole program, and the readers of the network and of file systems.
use zsr.Prelude.{
  ℕ, ◌+◌, ◌*◌, ◌≤◌, ◌≡◌, refl, sym, ap, true, false, none, some, some-injective, List, [], ◌∷◌,
  codes, All, arith,
}
use zsr.Libc.Scan.{atoi}
use zsr.Double.{Expr, lit, symbolic}
use zsr.Fs.{Statfs, FsNumbers, set_fs_stat}
use zsr.Fs.Space.{IsSound, set_fs_stat-parts}
use zsr.Network.{IfAddr, inet}
use zsr.Network.Ip.{first_token, get_ip_addr}
use zsr.Network.Ip.Safety.{HasText, WritesFreed, interfaces, get_ip_addr-WritesFreed}
use zsr.Framework.Loading.{load_modules}
use zsr.Modules.Handlers.{SystemView, Records, all_handlers}
use zsr.Modules.Handlers.Contracts.{dns, snapshot_text}
use zsr.Tool.Actions.{returned}
use zsr.Tool.Main.{count, unknown, main, Run}
use zsr.Tool.Main.Latest.{latest_reports}
use zsr.Tool.Program.{enabled, main-latest}
use zsr.Tool.Main.Rounds.{none_ended, AllReturn}
use zsr.Tool.Actions.{any_ended, collect_record, print_mod_record, write_record}
use zsr.Tool.Main.{report}
use zsr.Modules.Handlers.{
  cpu_handlers, dns_handlers, fs_handlers, gateway_handlers, io_handlers, ip_handlers,
  load_avg_handlers, mem_handlers, network_handlers, proc_handlers, swap_handlers, time_handlers,
  uptime_handlers, who_handlers,
}
use zsr.Io.Listing.{read_io_stat, read_disks}
use zsr.Cpu.Count.{get_num_of_cpu, count_lines}
use zsr.Libc.Lines.{lines}
use zsr.Libc.Text.{starts_with}
use zsr.Libc.Scan.{scan_d}
use zsr.Modules.Snapshot.{collect_ip}
use zsr.Network.Ip.{ip_loop}
use zsr.Modules.Single.{collect_load_avg, read_last, or_cleared}
use zsr.Host.{read_load_stat}
use zsr.Proc.Listing.{get_all_proc, list_procs}
use zsr.Modules.History.{collect_proc}
use zsr.Proc.{compute_proc_cpu_stat, differences}

abbrev pub no_numbers : FsNumbers Expr
no_numbers = record {
  total = 0;
  used = 0;
  available = 0;
  util = lit 0;
  inodes = 0;
  iused = 0;
  ifree = 0;
  iutil = lit 0;
}

-- One processor; the resolver has one server, and a local one.
abbrev pub view : ℕ → SystemView
view now = record {
  stat = some (codes "cpu  1 0 1 9 0\ncpu0 1 0 1 9 0\n");
  uptime = none;
  meminfo = none;
  loadavg = some (codes "0.00 0.01 0.05 1/80 900\n");
  route = none;
  io = record {
    ticks = some 100;
    stat = some (codes "cpu  1 0 1 9 0\ncpu0 1 0 1 9 0\n");
    uptime = some (codes "100.25 90.00\n");
    diskstats = none;
    error = [];
  };
  proc = record {
    cpu = some (codes "cpu  1 0 1 9 0\ncpu0 1 0 1 9 0\n");
    entries = some [];
    users = record { getpwuid = λ uid. none; getgrgid = λ gid. none };
    totalram = some 1048576;
  };
  addrs = some [];
  servers = some (some (codes "8.8.8.8") ∷ some (codes "127.0.0.1") ∷ []);
  mounts = none;
  utmp = [];
  now = now;
}

-- All fourteen modules return in both rounds, and their texts fit.
view_returns : AllReturn 2 0 view (enabled symbolic (λ s. []) (λ n. none) no_numbers dns)
unfolding any_ended collect_record report print_mod_record write_record load_modules all_handlers
    cpu_handlers dns_handlers fs_handlers gateway_handlers io_handlers ip_handlers load_avg_handlers
    mem_handlers network_handlers proc_handlers swap_handlers time_handlers uptime_handlers
    who_handlers read_io_stat get_num_of_cpu count_lines lines zsr.Cpu.Count.is_cpu_line starts_with
    zsr.Cpu.Count.larger scan_d read_disks collect_ip get_ip_addr ip_loop collect_load_avg
    read_load_stat read_last or_cleared get_all_proc list_procs collect_proc compute_proc_cpu_stat
    differences zsr.Modules.Lines.dns_to_str zsr.Modules.Snapshot.collect_dns
    zsr.Network.Dns.get_dns zsr.Network.Dns.is_local_host zsr.Prelude.same_text
view_returns =
    let ms = enabled symbolic (λ s. []) (λ n. none) no_numbers dns in
    (
      none_ended (collect_record (view 0) ms) refl,
      refl,
      (none_ended (collect_record (view 1) (report (view 0) ms).0) refl, refl, tt),
    )

main-latest_example :
    (r : Run SystemView (Records Expr)) × (main 3
        (unknown (some (codes "--dns")) ∷ count (codes "2") ∷ [])
        view
        (load_modules (all_handlers symbolic (λ s. []) (λ n. none) no_numbers) [])
      ≡ returned r [])
    × (r.finished ≡ true)
    × (r.ended ≡ false)
    × (r.effects
        ≡ latest_reports
            (snapshot_text symbolic (λ s. []) (λ n. none) no_numbers dns)
            2
            2
            0
            view
            [])
unfolding atoi
main-latest_example =
    main-latest symbolic (λ s. []) (λ n. none) no_numbers dns 3 1 (codes "2") view refl
      (omega arith) view_returns

-- An address without a name, and another one behind it.
abbrev addrs : List IfAddr
addrs =
    record { name = codes "eth0"; family = some inet; host = none; mask = none; link = none }
    ∷ record {
      name = codes "eth1";
      family = some inet;
      host = some (codes "10.0.0.2");
      mask = some (codes "255.0.0.0");
      link = none;
    }
    ∷ []

addrs-HasText : All HasText addrs
unfolding first_token
addrs-HasText = (
  λ host e. cc e,
  (λ host e. (codes "10.0.0.2", ap first_token (sym (some-injective _ _ e))), tt),
)

get_ip_addr-WritesFreed_example :
    (WritesFreed addrs → get_ip_addr (some addrs) ≡ none)
    × (¬ WritesFreed addrs → get_ip_addr (some addrs) ≡ some (interfaces addrs))
get_ip_addr-WritesFreed_example = get_ip_addr-WritesFreed addrs addrs-HasText

abbrev disk_space : Statfs
disk_space = record {
  f_bsize = 4096;
  f_blocks = 1000;
  f_bfree = 400;
  f_bavail = 350;
  f_files = 500;
  f_ffree = 123;
}

disk_space-IsSound : IsSound disk_space
disk_space-IsSound = omega arith

set_fs_stat-parts_example :
    (n : FsNumbers Expr) × (set_fs_stat symbolic (some disk_space) none ≡ some n)
    × (n.total ≡ 1000 * 4096)
    × (n.used + 400 * 4096 ≡ n.total)
    × (n.used + n.available ≤ n.total)
    × (n.iused + n.ifree ≡ n.inodes)
set_fs_stat-parts_example = set_fs_stat-parts symbolic disk_space none disk_space-IsSound
