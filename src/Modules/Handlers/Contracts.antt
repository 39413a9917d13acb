-- ===== src/Modules/Handlers/Contracts.antt =====
-- The modules that keep the last answer only meet the contract of Framework/Latest.
use zsr.Prelude.{ℕ, ◌≡◌, refl, ap, Option, List, [], ◌∷◌, ◌++◌, Bytes}
use zsr.Double.{Double}
use zsr.Framework.Latest.{Latest}
use zsr.Network.{get_network}
use zsr.Network.Dns.{get_dns}
use zsr.Host.{get_login_user}
use zsr.Fs.{FsNumbers, read_fs_stat}
use zsr.Modules.Print.{record_line}
use zsr.Modules.Lines.{
  of_all, who_line, network_line, fs_line, dns_to_str, who_to_str, network_to_str, fs_to_str,
}
use zsr.Modules.Snapshot.{emptied, collect_dns, collect_network, collect_who, collect_fs}
use zsr.Modules.Handlers.{
  Records, SystemView, ModuleHandlers, dns_handlers, network_handlers, who_handlers, fs_handlers,
}

pub data Snapshot : Type 0 where
  dns network who fs : Snapshot

pub emptied_nil : {A : Type 0} (records found : List A) → emptied records ++ found ≡ found
unfolding emptied
emptied_nil [] found = refl
emptied_nil (x ∷ records) found = refl

module _ (D : Double) (sscanf_f : Bytes → List D.F) (inet_ntop : ℕ → Option Bytes)
    (held : FsNumbers D.F) where
  open D use {F}

  abbrev pub snapshot_handlers : Snapshot → ModuleHandlers D sscanf_f inet_ntop held
  snapshot_handlers dns = dns_handlers D sscanf_f inet_ntop held
  snapshot_handlers network = network_handlers D sscanf_f inet_ntop held
  snapshot_handlers who = who_handlers D sscanf_f inet_ntop held
  snapshot_handlers fs = fs_handlers D sscanf_f inet_ntop held

  -- A line for each entry of the system's answer, if there is one.
  abbrev pub snapshot_text : Snapshot → SystemView → Option Bytes
  snapshot_text dns s = of_all (record_line "dns") (get_dns s.servers)
  snapshot_text network s = of_all network_line (get_network s.addrs)
  snapshot_text who s = of_all who_line (get_login_user s.utmp)
  snapshot_text fs s = of_all (fs_line D held) (read_fs_stat D s.mounts).0

  pub snapshot_shows :
      (k : Snapshot) (now : SystemView) (r : Records F)
      → (snapshot_handlers k).record_to_str ((snapshot_handlers k).collect_record now r)
        ≡ snapshot_text k now
  unfolding dns_handlers network_handlers who_handlers fs_handlers dns_to_str network_to_str
      who_to_str fs_to_str collect_dns collect_network collect_who collect_fs
  snapshot_shows dns now r =
      ap (of_all (record_line "dns")) (emptied_nil r.dns (get_dns now.servers))
  snapshot_shows network now r =
      ap (of_all network_line) (emptied_nil r.network (get_network now.addrs))
  snapshot_shows who now r = ap (of_all who_line) (emptied_nil r.who (get_login_user now.utmp))
  snapshot_shows fs now r =
      ap (of_all (fs_line D held)) (emptied_nil r.fs (read_fs_stat D now.mounts).0)

  unfoldable pub snapshot_latest : (k : Snapshot) → Latest (snapshot_handlers k)
  snapshot_latest k = record { text = snapshot_text k; shows = snapshot_shows k }
