-- ===== src/Modules/Handlers.antt =====
-- The handlers of the fourteen modules as the framework calls them: over what the system shows at one
-- moment, and the record list. The lists of all modules are the fields of one record, and a module
-- uses its own field only. The calls of the log are left out here.
pub mod Contracts
pub mod Samples
use zsr.Prelude.{ℕ, Bool, true, false, Option, none, some, List, [], ◌∷◌, Bytes}
use zsr.Double.{Double}
use zsr.Framework.{Handlers}
use zsr.Framework.Loading.{AllHandlers}
use zsr.Network.{IfAddr, RtnlLink}
use zsr.Network.Ip.{Interface}
use zsr.Host.{Utmp, LoginUser, LoadStat}
use zsr.Fs.{Mount, FsStat, FsNumbers}
use zsr.Uptime.{Uptime}
use zsr.Meminfo.{MemStat, SwapStat}
use zsr.Cpu.{Cpu}
use zsr.Cpu.Count
use zsr.Cpu.Count.{Count, get_num_of_cpu}
use zsr.Proc.{Proc}
use zsr.Proc.Listing.{ProcSystem, get_all_proc}
use zsr.Io.{Io}
use zsr.Io.Listing.{IoSystem, Listing, listed, exited, undefined, to_uint, read_io_stat}
use zsr.Modules.Single.{
  collect_uptime, collect_mem, collect_swap, collect_gateway, collect_time, collect_load_avg,
}
use zsr.Modules.Snapshot.{collect_dns, collect_ip, collect_network, collect_who, collect_fs}
use zsr.Modules.History.{collect_cpu, collect_proc, collect_io}
use zsr.Modules.Print.{uptime_to_str, mem_to_str, swap_to_str, cpu_to_str}
use zsr.Modules.Lines.{
  dns_to_str, ip_to_str, gateway_to_str, who_to_str, network_to_str, time_to_str, fs_to_str,
  load_avg_to_str, proc_to_str, io_to_str,
}

-- What the system shows at one moment.
pub record SystemView : Type 0 where
  pub stat : Option Bytes
  pub uptime : Option Bytes
  pub meminfo : Option Bytes
  pub loadavg : Option Bytes
  pub route : Option Bytes
  pub io : IoSystem
  pub proc : ProcSystem
  pub addrs : Option (List IfAddr)
  pub servers : Option (List (Option Bytes))
  pub mounts : Option (List Mount)
  pub utmp : List Utmp
  pub now : ℕ

-- `ended`: a handler has not returned, since the process has ended or its behaviour is undefined; the loop
-- of `main` goes no further then.
pub record Records (F : Type 0) : Type 0 where
  pub ended : Bool
  pub cpu : List (Cpu F)
  pub dns : List Bytes
  pub fs : List (FsStat F)
  pub gateway : List Bytes
  pub io : List (List (Io F))
  pub ip : List Interface
  pub load_avg : List (LoadStat F)
  pub mem : List MemStat
  pub network : List RtnlLink
  pub proc : List (List (Proc F))
  pub swap : List SwapStat
  pub time : List ℕ
  pub uptime : List Uptime
  pub who : List LoginUser

abbrev pub no_records : {F : Type 0} → Records F
no_records = record {
  ended = false;
  cpu = [];
  dns = [];
  fs = [];
  gateway = [];
  io = [];
  ip = [];
  load_avg = [];
  mem = [];
  network = [];
  proc = [];
  swap = [];
  time = [];
  uptime = [];
  who = [];
}

-- The record with the new content of a field, or `ended`.
abbrev pub or_ended : {F A : Type 0} → Records F → (A → Records F) → Option A → Records F
or_ended r with_field none = record r { ended = true }
or_ended r with_field (some a) = with_field a

-- NUM_OF_CPU behind `get_num_of_cpu`; its initial value if that has not returned.
abbrev pub num_of_cpu_after : Count → ℕ
num_of_cpu_after (Count.returned n) = n
num_of_cpu_after (Count.exited call) = 1
num_of_cpu_after Count.undefined = 1

-- HZ behind `get_HZ`, and its initial value.
abbrev pub hz_after : Option ℕ → ℕ
hz_after none = 100
hz_after (some ticks) = to_uint ticks

module _ (D : Double) (sscanf_f : Bytes → List D.F) (inet_ntop : ℕ → Option Bytes)
    (held : FsNumbers D.F) where
  open D use {F, of_u64}

  abbrev pub ModuleHandlers : Type 0
  ModuleHandlers = Handlers SystemView (Records F)

  -- A module's handlers from the two functions over its field.
  abbrev pub handlers_of :
      (SystemView → Records F → Records F) → (Records F → Option Bytes) → ModuleHandlers
  handlers_of collect str = record {
    collect_record = collect;
    record_to_str = str;
    empty = no_records;
    ended = λ r. r.ended;
  }

  unfoldable pub cpu_handlers : ModuleHandlers
  cpu_handlers =
      handlers_of (λ s r. record r { cpu = (collect_cpu D s.stat r.cpu).0 })
        (λ r. cpu_to_str D r.cpu)

  unfoldable pub dns_handlers : ModuleHandlers
  dns_handlers =
      handlers_of (λ s r. record r { dns = collect_dns s.servers r.dns }) (λ r. dns_to_str r.dns)

  unfoldable pub fs_handlers : ModuleHandlers
  fs_handlers =
      handlers_of (λ s r. record r { fs = (collect_fs D s.mounts r.fs).0 })
        (λ r. fs_to_str D held r.fs)

  unfoldable pub gateway_handlers : ModuleHandlers
  gateway_handlers =
      handlers_of (λ s r. record r { gateway = (collect_gateway inet_ntop s.route r.gateway).0 })
        (λ r. gateway_to_str r.gateway)

  abbrev pub collect_listing : SystemView → Records F → Listing F → Records F
  collect_listing s r (listed entries logs) = record r {
    io =
        collect_io D (hz_after s.io.ticks) (num_of_cpu_after (get_num_of_cpu s.io.stat s.io.error))
          entries r.io;
  }
  collect_listing s r (exited logs) = record r { ended = true }
  collect_listing s r undefined = record r { ended = true }

  unfoldable pub io_handlers : ModuleHandlers
  io_handlers =
      handlers_of (λ s r. collect_listing s r (read_io_stat D s.io)) (λ r. io_to_str D r.io)

  unfoldable pub ip_handlers : ModuleHandlers
  ip_handlers =
      handlers_of (λ s r. or_ended r (λ found. record r { ip = found }) (collect_ip s.addrs r.ip))
        (λ r. ip_to_str r.ip)

  unfoldable pub load_avg_handlers : ModuleHandlers
  load_avg_handlers =
      handlers_of
        (λ s r.
          or_ended r (λ entries. record r { load_avg = entries })
            (collect_load_avg sscanf_f (of_u64 0) s.loadavg r.load_avg).0)
        (λ r. load_avg_to_str D r.load_avg)

  unfoldable pub mem_handlers : ModuleHandlers
  mem_handlers =
      handlers_of (λ s r. record r { mem = (collect_mem s.meminfo r.mem).0 })
        (λ r. mem_to_str r.mem)

  unfoldable pub network_handlers : ModuleHandlers
  network_handlers =
      handlers_of (λ s r. record r { network = collect_network s.addrs r.network })
        (λ r. network_to_str r.network)

  abbrev pub collect_processes : Records F → Option (List (Proc F)) → Records F
  collect_processes r none = record r { ended = true }
  collect_processes r (some ps) =
      or_ended r (λ samples. record r { proc = samples }) (collect_proc D ps r.proc)

  unfoldable pub proc_handlers : ModuleHandlers
  proc_handlers =
      handlers_of (λ s r. collect_processes r (get_all_proc D s.proc).0) (λ r. proc_to_str D r.proc)

  unfoldable pub swap_handlers : ModuleHandlers
  swap_handlers =
      handlers_of (λ s r. record r { swap = (collect_swap s.meminfo r.swap).0 })
        (λ r. swap_to_str r.swap)

  unfoldable pub time_handlers : ModuleHandlers
  time_handlers =
      handlers_of (λ s r. record r { time = (collect_time s.now r.time).0 })
        (λ r. time_to_str r.time)

  unfoldable pub uptime_handlers : ModuleHandlers
  uptime_handlers =
      handlers_of (λ s r. record r { uptime = (collect_uptime s.uptime r.uptime).0 })
        (λ r. uptime_to_str r.uptime)

  unfoldable pub who_handlers : ModuleHandlers
  who_handlers =
      handlers_of (λ s r. record r { who = collect_who s.utmp r.who }) (λ r. who_to_str r.who)

  -- As `mod_*_register` hands them over.
  unfoldable pub all_handlers : AllHandlers SystemView (Records F)
  all_handlers = record {
    cpu = cpu_handlers;
    dns = dns_handlers;
    fs = fs_handlers;
    gateway = gateway_handlers;
    io = io_handlers;
    ip = ip_handlers;
    load_avg = load_avg_handlers;
    mem = mem_handlers;
    network = network_handlers;
    proc = proc_handlers;
    swap = swap_handlers;
    time = time_handlers;
    uptime = uptime_handlers;
    who = who_handlers;
  }
