-- ===== src/Modules/Buffer/Few.antt =====
-- The handlers keep the record lists within the capacity of the buffers, as long as the system shows few
-- entries.
use zsr.Prelude.{
  ℕ, Option, none, some, List, [], ◌∷◌, ◌++◌, Bytes, get_last?, get_last?-append_one, arith,
}
use zsr.Double.{Double}
use zsr.Network.{get_network}
use zsr.Network.Ip.{Interface, get_ip_addr}
use zsr.Network.Dns.{get_dns}
use zsr.Host.{LoadStat, get_login_user}
use zsr.Fs.{FsNumbers, read_fs_stat}
use zsr.Cpu.Count.{get_num_of_cpu}
use zsr.Proc.{Proc}
use zsr.Proc.Listing.{get_all_proc}
use zsr.Io.{Io}
use zsr.Io.Listing.{Listing, listed, exited, undefined, read_io_stat}
use zsr.Modules.Single.{collect_load_avg}
use zsr.Modules.Snapshot.{
  emptied, added, collect_dns, collect_ip, collect_network, collect_who, collect_fs,
}
use zsr.Modules.History.{computed_procs, add_sample, computed_io, collect_proc, collect_io}
use zsr.Modules.Handlers.{
  Records, SystemView, ModuleHandlers, or_ended, hz_after, num_of_cpu_after, collect_listing,
  collect_processes, cpu_handlers, dns_handlers, fs_handlers, gateway_handlers, io_handlers,
  ip_handlers, load_avg_handlers, mem_handlers, network_handlers, proc_handlers, swap_handlers,
  time_handlers, uptime_handlers, who_handlers,
}
use zsr.Modules.Sized.Answers.{OfSome}
use zsr.Modules.Buffer.Counts.{
  AtMost, get_dns-AtMost, get_network-AtMost, get_ip_addr-AtMost, get_login_user-AtMost,
}
use zsr.Modules.Buffer.Entries.{
  LinesAtMost, ListsAtMost, read_fs_stat-AtMost, get_all_proc-AtMost, compute_proc_cpu_stat-AtMost,
  compute_io_stat-length, read_io_stat-AtMost,
}
use zsr.Modules.Buffer.Doubles.{LastAtMost}

-- How many entries of any size fit into the buffer of their module.
pub record FewView (s : SystemView) : Type 0 where
  pub servers : OfSome (AtMost 14979) s.servers
  pub addrs : OfSome (AtMost 5190) s.addrs
  pub utmp : AtMost 1142 s.utmp
  pub mounts : OfSome (AtMost 265) s.mounts
  pub entries : OfSome (AtMost 835) s.proc.entries
  pub disks : LinesAtMost 252 s.io.diskstats

pub record FewRecords {F : Type 0} (r : Records F) : Type 0 where
  pub dns : AtMost 14979 r.dns
  pub ip : AtMost 5190 r.ip
  pub network : AtMost 5190 r.network
  pub who : AtMost 1142 r.who
  pub fs : AtMost 265 r.fs
  pub proc : LastAtMost 835 r.proc
  pub io : LastAtMost 252 r.io

emptied-AtMost : {A : Type 0} (n : ℕ) (xs ys : List A) → AtMost n ys → AtMost n (emptied xs ++ ys)
unfolding emptied
emptied-AtMost n [] ys h = h
emptied-AtMost n (x ∷ xs) ys h = h

LastAtMost-append :
    {A : Type 0} (n : ℕ) (samples : List (List A)) (s : List A)
    → AtMost n s
    → LastAtMost n (samples ++ s ∷ [])
LastAtMost-append n samples s h = rw (get_last?-append_one samples s) h

module _ (D : Double) (sscanf_f : Bytes → List D.F) (inet_ntop : ℕ → Option Bytes)
    (held : FsNumbers D.F) where
  open D use {F}

  abbrev pub KeepsFew : ModuleHandlers D sscanf_f inet_ntop held → Type 0
  KeepsFew h =
      (s : SystemView) (r : Records F)
      → FewView s
      → FewRecords r
      → FewRecords (h.collect_record s r)

  pub cpu-Few : KeepsFew (cpu_handlers D sscanf_f inet_ntop held)
  unfolding cpu_handlers
  cpu-Few s r view h = ground arith

  pub dns-Few : KeepsFew (dns_handlers D sscanf_f inet_ntop held)
  unfolding dns_handlers collect_dns
  dns-Few s r view h = ground (
    arith,
    emptied-AtMost 14979 r.dns (get_dns s.servers) (get_dns-AtMost 14979 s.servers view.servers),
  )

  pub fs-Few : KeepsFew (fs_handlers D sscanf_f inet_ntop held)
  unfolding fs_handlers collect_fs
  fs-Few s r view h = ground (
    arith,
    emptied-AtMost 265 r.fs (read_fs_stat D s.mounts).0
        (read_fs_stat-AtMost D 265 s.mounts view.mounts),
  )

  pub gateway-Few : KeepsFew (gateway_handlers D sscanf_f inet_ntop held)
  unfolding gateway_handlers
  gateway-Few s r view h = ground arith

  ip-few_added :
      (r : Records F) (xs : List Interface) (o : Option (List Interface))
      → FewRecords r
      → OfSome (AtMost 5190) o
      → FewRecords (or_ended r (λ found. record r { ip = found }) (added (emptied xs) o))
  ip-few_added r xs none h g = ground arith
  ip-few_added r xs (some found) h g = ground (arith, emptied-AtMost 5190 xs found g)

  pub ip-Few : KeepsFew (ip_handlers D sscanf_f inet_ntop held)
  unfolding ip_handlers collect_ip
  ip-Few s r view h =
      ip-few_added r r.ip (get_ip_addr s.addrs) h (get_ip_addr-AtMost 5190 s.addrs view.addrs)

  load-few_ended :
      (r : Records F) (o : Option (List (LoadStat F)))
      → FewRecords r
      → FewRecords (or_ended r (λ entries. record r { load_avg = entries }) o)
  load-few_ended r none h = ground arith
  load-few_ended r (some entries) h = ground arith

  pub load_avg-Few : KeepsFew (load_avg_handlers D sscanf_f inet_ntop held)
  unfolding load_avg_handlers
  load_avg-Few s r view h =
      load-few_ended r (collect_load_avg sscanf_f (D.of_u64 0) s.loadavg r.load_avg).0 h

  pub mem-Few : KeepsFew (mem_handlers D sscanf_f inet_ntop held)
  unfolding mem_handlers
  mem-Few s r view h = ground arith

  pub network-Few : KeepsFew (network_handlers D sscanf_f inet_ntop held)
  unfolding network_handlers collect_network
  network-Few s r view h = ground (
    arith,
    emptied-AtMost 5190 r.network (get_network s.addrs)
        (get_network-AtMost 5190 s.addrs view.addrs),
  )

  pub swap-Few : KeepsFew (swap_handlers D sscanf_f inet_ntop held)
  unfolding swap_handlers
  swap-Few s r view h = ground arith

  pub time-Few : KeepsFew (time_handlers D sscanf_f inet_ntop held)
  unfolding time_handlers
  time-Few s r view h = ground arith

  pub uptime-Few : KeepsFew (uptime_handlers D sscanf_f inet_ntop held)
  unfolding uptime_handlers
  uptime-Few s r view h = ground arith

  pub who-Few : KeepsFew (who_handlers D sscanf_f inet_ntop held)
  unfolding who_handlers collect_who
  who-Few s r view h = ground (
    arith,
    emptied-AtMost 1142 r.who (get_login_user s.utmp) (get_login_user-AtMost 1142 s.utmp view.utmp),
  )

  few_sampled_io :
      (n hz num_of_cpu : ℕ) (es : List (Io F)) (o : Option (List (Io F)))
      → AtMost n es
      → AtMost n (computed_io D hz num_of_cpu es o)
  few_sampled_io n hz num_of_cpu es none h = h
  few_sampled_io n hz num_of_cpu es (some prev) h =
      omega (arith, compute_io_stat-length D hz num_of_cpu es prev)

  listing-Few :
      (s : SystemView) (r : Records F) (l : Listing F)
      → FewRecords r
      → ListsAtMost D 252 l
      → FewRecords (collect_listing D sscanf_f inet_ntop held s r l)
  unfolding collect_io
  listing-Few s r (listed es logs) h g =
      let hz : ℕ = hz_after s.io.ticks in
      let num_of_cpu : ℕ = num_of_cpu_after (get_num_of_cpu s.io.stat s.io.error) in
      ground (
        arith,
        LastAtMost-append 252 r.io (computed_io D hz num_of_cpu es (get_last? r.io))
            (few_sampled_io 252 hz num_of_cpu es (get_last? r.io) g),
      )
  listing-Few s r (exited logs) h g = ground arith
  listing-Few s r undefined h g = ground arith

  pub io-Few : KeepsFew (io_handlers D sscanf_f inet_ntop held)
  unfolding io_handlers
  io-Few s r view h =
      listing-Few s r (read_io_stat D s.io) h (read_io_stat-AtMost D 252 s.io view.disks)

  few_sampled_procs :
      (n : ℕ) (ps : List (Proc F)) (o : Option (List (Proc F)))
      → AtMost n ps
      → OfSome (AtMost n) (computed_procs D ps o)
  few_sampled_procs n ps none h = h
  few_sampled_procs n ps (some prev) h = compute_proc_cpu_stat-AtMost D n ps prev h

  few_added_procs :
      (r : Records F) (o : Option (List (Proc F)))
      → FewRecords r
      → OfSome (AtMost 835) o
      → FewRecords (or_ended r (λ samples. record r { proc = samples }) (add_sample D r.proc o))
  few_added_procs r none h g = ground arith
  few_added_procs r (some ps) h g = ground (arith, LastAtMost-append 835 r.proc ps g)

  processes-Few :
      (r : Records F) (o : Option (List (Proc F)))
      → FewRecords r
      → OfSome (AtMost 835) o
      → FewRecords (collect_processes D sscanf_f inet_ntop held r o)
  unfolding collect_proc
  processes-Few r none h g = ground arith
  processes-Few r (some ps) h g =
      few_added_procs r (computed_procs D ps (get_last? r.proc)) h
        (few_sampled_procs 835 ps (get_last? r.proc) g)

  pub proc-Few : KeepsFew (proc_handlers D sscanf_f inet_ntop held)
  unfolding proc_handlers
  proc-Few s r view h =
      processes-Few r (get_all_proc D s.proc).0 h (get_all_proc-AtMost D 835 s.proc view.entries)
