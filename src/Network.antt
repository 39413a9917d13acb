-- ===== src/Network.antt =====
-- The library's readers of the network: libzsr/ip.c, libzsr/network.c, libzsr/dns.c and
-- libzsr/gateway.c. The answers of getifaddrs, getnameinfo, the resolver and inet_ntop come from
-- outside; the list links are left out. Names of interfaces are shorter than the fields they go to.
pub mod Ip
pub mod Dns
pub mod Gateway
use zsr.Prelude.{ℕ, zero, suc, Bool, true, false, Option, none, some, List, [], ◌∷◌, Bytes}

-- `strncpy(dst, s, n)` into a cleared field.
abbrev pub take : ℕ → Bytes → Bytes
take zero s = []
take (suc n) [] = []
take (suc n) (c ∷ s) = c ∷ take n s

pub data Family : Type 0 where
  inet inet6 packet unspecified : Family

-- `struct rtnl_link_stats`, of which four counters of 32 bits are read.
pub record LinkStats : Type 0 where
  pub tx_packets : ℕ
  pub rx_packets : ℕ
  pub tx_bytes : ℕ
  pub rx_bytes : ℕ

-- One entry of `getifaddrs`. `family`: none where `ifa_addr` is NULL. `host` and `mask`: what
-- `getnameinfo` makes of the address and the mask, none if it fails. `link`: `ifa_data`.
pub record IfAddr : Type 0 where
  pub name : Bytes
  pub family : Option Family
  pub host : Option Bytes
  pub mask : Option Bytes
  pub link : Option LinkStats

-- `rtnl_link_t`.
pub record RtnlLink : Type 0 where
  pub dev : Bytes
  pub tx_packet : ℕ
  pub rx_packet : ℕ
  pub tx_byte : ℕ
  pub rx_byte : ℕ

-- The entry that the loop of `get_network` adds for an address, if any.
abbrev pub link_of : Bytes → Option Family → Option LinkStats → Option RtnlLink
link_of name (some packet) (some stats) = some (record {
  dev = take 64 name;
  tx_packet = stats.tx_packets;
  rx_packet = stats.rx_packets;
  tx_byte = stats.tx_bytes;
  rx_byte = stats.rx_bytes;
})
link_of name family link = none

abbrev pub cons_some : {A : Type 0} → Option A → List A → List A
cons_some none xs = xs
cons_some (some x) xs = x ∷ xs

unfoldable pub links : List IfAddr → List RtnlLink
links [] = []
links (i ∷ is) = cons_some (link_of i.name i.family i.link) (links is)

-- `none` where `getifaddrs` fails.
unfoldable pub get_network : Option (List IfAddr) → List RtnlLink
unfolding links
get_network none = []
get_network (some is) = links is
