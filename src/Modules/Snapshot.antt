-- ===== src/Modules/Snapshot.antt =====
-- The modules that keep the last answer only: mod_dns.c, mod_ip.c, mod_network.c, mod_who.c and mod_fs.c.
-- `list_del_init` takes the head out of a list that is not empty; the entries are not freed.
use zsr.Prelude.{Option, none, some, List, [], ◌∷◌, ◌++◌, Bytes}
use zsr.Log.{LogCall}
use zsr.Double.{Double}
use zsr.Network.{IfAddr, RtnlLink, get_network}
use zsr.Network.Ip.{Interface, get_ip_addr}
use zsr.Network.Dns.{get_dns}
use zsr.Host.{Utmp, LoginUser, get_login_user}
use zsr.Fs.{Mount, FsStat, read_fs_stat}

-- The record list without its entries, if there are any.
unfoldable pub emptied : {A : Type 0} → List A → List A
emptied [] = []
emptied (x ∷ xs) = []

unfoldable pub collect_dns : Option (List (Option Bytes)) → List Bytes → List Bytes
unfolding emptied
collect_dns servers records = emptied records ++ get_dns servers

-- `none` is a fault of `get_ip_addr`.
abbrev pub added : {A : Type 0} → List A → Option (List A) → Option (List A)
added records none = none
added records (some found) = some (records ++ found)

unfoldable pub collect_ip : Option (List IfAddr) → List Interface → Option (List Interface)
unfolding emptied
collect_ip addrs records = added (emptied records) (get_ip_addr addrs)

unfoldable pub collect_network : Option (List IfAddr) → List RtnlLink → List RtnlLink
unfolding emptied
collect_network addrs records = emptied records ++ get_network addrs

unfoldable pub collect_who : List Utmp → List LoginUser → List LoginUser
unfolding emptied
collect_who ups records = emptied records ++ get_login_user ups

module _ (D : Double) where
  open D use {F}

  unfoldable pub collect_fs : Option (List Mount) → List (FsStat F) → List (FsStat F) × List LogCall
  unfolding emptied
  collect_fs mounts records =
      let (found, logs) = read_fs_stat D mounts in (emptied records ++ found, logs)
