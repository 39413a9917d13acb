-- ===== src/Modules/Sized/Rounds.antt =====
-- The handlers of all modules keep the records within their types.
use zsr.Prelude.{ℕ, Option, none, some, List, [], ◌∷◌, Bytes, get_last?, All, All-append, arith}
use zsr.Double.{Double}
use zsr.Fs.{FsNumbers, read_fs_stat}
use zsr.Network.{get_network}
use zsr.Network.Ip.{Interface, get_ip_addr}
use zsr.Network.Dns.{get_dns}
use zsr.Cpu.Count.{get_num_of_cpu}
use zsr.Host.{LoadStat, get_login_user, get_sys_time}
use zsr.Proc.{Proc}
use zsr.Proc.Listing.{get_all_proc}
use zsr.Io.{Io}
use zsr.Io.Listing.{Listing, listed, exited, undefined, read_io_stat}
use zsr.Modules.Single.{or_cleared, collect_time, collect_load_avg}
use zsr.Modules.Snapshot.{
  emptied, added, collect_dns, collect_ip, collect_network, collect_who, collect_fs,
}
use zsr.Modules.History.{computed_procs, add_sample, computed_io, collect_proc, collect_io}
use zsr.Modules.Handlers.{
  Records, SystemView, ModuleHandlers, or_ended, hz_after, num_of_cpu_after, collect_listing,
  collect_processes, cpu_handlers, dns_handlers, fs_handlers, gateway_handlers, io_handlers,
  ip_handlers, load_avg_handlers, mem_handlers, network_handlers, proc_handlers, swap_handlers,
  time_handlers, uptime_handlers, who_handlers,
}
use zsr.Modules.Sized.{
  IsU64, IsField, SizedInterface, SizedUser, SizedLink, SizedFs, SizedProc, SizedIo,
}
use zsr.Modules.Sized.Answers.{OfSome, get_network-Sized, get_dns-IsField, get_login_user-Sized}
use zsr.Modules.Sized.Interfaces.{get_ip_addr-Sized}
use zsr.Modules.Sized.Mounts.{read_fs_stat-Sized}
use zsr.Modules.Sized.Samples.{SizedListing, read_io_stat-Sized, compute_io_stat-Sized}
use zsr.Modules.Sized.Listing.{get_all_proc-Sized, compute_proc_cpu_stat-Sized}
use zsr.Modules.Sized.Handlers.{
  SizedRecords, SizedView, read_last-All, or_cleared-All, emptied-All, collect_uptime-Sized,
  collect_mem-Sized, collect_swap-Sized, collect_gateway-IsField, collect_cpu-Sized,
}

module _ (D : Double) (sscanf_f : Bytes → List D.F) (inet_ntop : ℕ → Option Bytes)
    (held : FsNumbers D.F) where
  open D use {F}

  -- A module whose handler keeps the records within their types.
  abbrev pub KeepsSized : ModuleHandlers D sscanf_f inet_ntop held → Type 0
  KeepsSized h =
      (s : SystemView) (r : Records F)
      → SizedView s
      → SizedRecords r
      → SizedRecords (h.collect_record s r)

  pub cpu-Sized : KeepsSized (cpu_handlers D sscanf_f inet_ntop held)
  unfolding cpu_handlers
  cpu-Sized s r view h = ground (arith, collect_cpu-Sized D s.stat r.cpu h.cpu)

  pub dns-Sized : KeepsSized (dns_handlers D sscanf_f inet_ntop held)
  unfolding dns_handlers collect_dns
  dns-Sized s r view h =
      ground (arith, emptied-All (IsField 64) r.dns (get_dns s.servers) (get_dns-IsField s.servers))

  pub fs-Sized : KeepsSized (fs_handlers D sscanf_f inet_ntop held)
  unfolding fs_handlers collect_fs
  fs-Sized s r view h = ground (
    arith,
    emptied-All SizedFs r.fs (read_fs_stat D s.mounts).0
        (read_fs_stat-Sized D s.mounts view.mounts),
  )

  pub gateway-Sized : KeepsSized (gateway_handlers D sscanf_f inet_ntop held)
  unfolding gateway_handlers
  gateway-Sized s r view h =
      ground (arith, collect_gateway-IsField inet_ntop s.route r.gateway h.gateway)

  ip-added :
      (r : Records F) (xs : List Interface) (o : Option (List Interface))
      → SizedRecords r
      → OfSome (All SizedInterface) o
      → SizedRecords (or_ended r (λ found. record r { ip = found }) (added (emptied xs) o))
  ip-added r xs none h g = ground arith
  ip-added r xs (some found) h g = ground (arith, emptied-All SizedInterface xs found g)

  pub ip-Sized : KeepsSized (ip_handlers D sscanf_f inet_ntop held)
  unfolding ip_handlers collect_ip
  ip-Sized s r view h = ip-added r r.ip (get_ip_addr s.addrs) h (get_ip_addr-Sized s.addrs)

  load-ended :
      (r : Records F) (o : Option (List (LoadStat F)))
      → SizedRecords r
      → SizedRecords (or_ended r (λ entries. record r { load_avg = entries }) o)
  load-ended r none h = ground arith
  load-ended r (some entries) h = ground arith

  pub load_avg-Sized : KeepsSized (load_avg_handlers D sscanf_f inet_ntop held)
  unfolding load_avg_handlers
  load_avg-Sized s r view h =
      load-ended r (collect_load_avg sscanf_f (D.of_u64 0) s.loadavg r.load_avg).0 h

  pub mem-Sized : KeepsSized (mem_handlers D sscanf_f inet_ntop held)
  unfolding mem_handlers
  mem-Sized s r view h = ground (arith, collect_mem-Sized s.meminfo r.mem h.mem)

  pub network-Sized : KeepsSized (network_handlers D sscanf_f inet_ntop held)
  unfolding network_handlers collect_network
  network-Sized s r view h = ground (
    arith,
    emptied-All SizedLink r.network (get_network s.addrs) (get_network-Sized s.addrs view.addrs),
  )

  pub swap-Sized : KeepsSized (swap_handlers D sscanf_f inet_ntop held)
  unfolding swap_handlers
  swap-Sized s r view h = ground (arith, collect_swap-Sized s.meminfo r.swap h.swap)

  pub time-Sized : KeepsSized (time_handlers D sscanf_f inet_ntop held)
  unfolding time_handlers collect_time get_sys_time
  time-Sized s r view h = ground (
    arith,
    read_last-All IsU64 (λ (old : ℕ). (s.now, [])) (or_cleared 0 r.time) (λ x g. view.now)
        (or_cleared-All IsU64 0 r.time (omega arith) h.time),
  )

  pub uptime-Sized : KeepsSized (uptime_handlers D sscanf_f inet_ntop held)
  unfolding uptime_handlers
  uptime-Sized s r view h = ground (arith, collect_uptime-Sized s.uptime r.uptime h.uptime)

  pub who-Sized : KeepsSized (who_handlers D sscanf_f inet_ntop held)
  unfolding who_handlers collect_who
  who-Sized s r view h = ground (
    arith,
    emptied-All SizedUser r.who (get_login_user s.utmp) (get_login_user-Sized s.utmp view.utmp),
  )

  sampled_io :
      (hz num_of_cpu : ℕ) (es : List (Io F)) (o : Option (List (Io F)))
      → All SizedIo es
      → All SizedIo (computed_io D hz num_of_cpu es o)
  sampled_io hz num_of_cpu es none h = h
  sampled_io hz num_of_cpu es (some prev) h = compute_io_stat-Sized D hz num_of_cpu es prev h

  listing-Sized :
      (s : SystemView) (r : Records F) (l : Listing F)
      → SizedRecords r
      → SizedListing l
      → SizedRecords (collect_listing D sscanf_f inet_ntop held s r l)
  unfolding collect_io
  listing-Sized s r (listed es logs) h g = ground (
    arith,
    All-append (All SizedIo) r.io
        (computed_io D (hz_after s.io.ticks)
            (num_of_cpu_after (get_num_of_cpu s.io.stat s.io.error)) es (get_last? r.io)
          ∷ [])
        h.io
        (
          sampled_io (hz_after s.io.ticks) (num_of_cpu_after (get_num_of_cpu s.io.stat s.io.error))
              es (get_last? r.io) g,
          tt,
        ),
  )
  listing-Sized s r (exited logs) h g = ground arith
  listing-Sized s r undefined h g = ground arith

  pub io-Sized : KeepsSized (io_handlers D sscanf_f inet_ntop held)
  unfolding io_handlers
  io-Sized s r view h = listing-Sized s r (read_io_stat D s.io) h (read_io_stat-Sized D s.io)

  sampled_procs :
      (ps : List (Proc F)) (o : Option (List (Proc F)))
      → All SizedProc ps
      → OfSome (All SizedProc) (computed_procs D ps o)
  sampled_procs ps none h = h
  sampled_procs ps (some prev) h = compute_proc_cpu_stat-Sized D ps prev h

  added_procs :
      (r : Records F) (o : Option (List (Proc F)))
      → SizedRecords r
      → OfSome (All SizedProc) o
      → SizedRecords (or_ended r (λ samples. record r { proc = samples }) (add_sample D r.proc o))
  added_procs r none h g = ground arith
  added_procs r (some ps) h g =
      ground (arith, All-append (All SizedProc) r.proc (ps ∷ []) h.proc (g, tt))

  processes-Sized :
      (r : Records F) (o : Option (List (Proc F)))
      → SizedRecords r
      → OfSome (All SizedProc) o
      → SizedRecords (collect_processes D sscanf_f inet_ntop held r o)
  unfolding collect_proc
  processes-Sized r none h g = ground arith
  processes-Sized r (some ps) h g =
      added_procs r (computed_procs D ps (get_last? r.proc)) h
        (sampled_procs ps (get_last? r.proc) g)

  pub proc-Sized : KeepsSized (proc_handlers D sscanf_f inet_ntop held)
  unfolding proc_handlers
  proc-Sized s r view h =
      processes-Sized r (get_all_proc D s.proc).0 h (get_all_proc-Sized D s.proc)
