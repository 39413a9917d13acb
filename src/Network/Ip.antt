-- ===== src/Network/Ip.antt =====
-- libzsr/ip.c: get_ip_addr. The pointer `node` is a state of its own: after `free(node)` it is kept,
-- and the next address is written to the memory that it points to. `none` is such a write, or a read
-- through a null pointer.
pub mod Safety
use zsr.Prelude.{
  ℕ, Bool, true, false, Option, none, some, List, [], ◌∷◌, Bytes, ◌==◌, if◌then◌else◌,
}
use zsr.Network.{Family, inet, inet6, packet, unspecified, IfAddr, take}

pub data IpVersion : Type 0 where
  ipv4 ipv6 : IpVersion

-- `interface_t`.
pub record Interface : Type 0 where
  pub dev : Bytes
  pub ip_addr : Bytes
  pub ip_ver : IpVersion
  pub netmask : Bytes

-- The pointer `node` between two rounds: NULL, or memory that has been freed. Memory in use is added
-- to the list or freed in the round that allocates it.
pub data Node : Type 0 where
  null freed : Node

-- `family == AF_INET` or `AF_INET6`, with the version.
unfoldable pub version : Option Family → Option IpVersion
version (some inet) = some ipv4
version (some inet6) = some ipv6
version (some packet) = none
version (some unspecified) = none
version none = none

-- INET_ADDRSTRLEN and INET6_ADDRSTRLEN.
abbrev pub addr_len : IpVersion → ℕ
addr_len ipv4 = 16
addr_len ipv6 = 46

-- The bytes up to the first '%'.
until_percent : Bytes → Bytes
until_percent [] = []
until_percent (c ∷ s) = let rest = until_percent s in if c == b'%' then [] else c ∷ rest

-- `strtok(s, "%")`; `none`: NULL.
unfoldable pub first_token : Bytes → Option Bytes
unfolding until_percent
first_token [] = none
first_token (c ∷ s) = if c == b'%' then first_token s else some (c ∷ until_percent s)

-- The text that is copied to `ip_addr`; the zone of an IPv6 address is cut off.
abbrev pub addr_text : IpVersion → Bytes → Option Bytes
addr_text ipv4 host = some host
addr_text ipv6 host = first_token host

abbrev pub interface_of : Bytes → IpVersion → Bytes → Bytes → Interface
interface_of name ver text mask = record {
  dev = take 64 name;
  ip_addr = take (addr_len ver) text;
  ip_ver = ver;
  netmask = take (addr_len ver) mask;
}

abbrev pub put : Option Interface → Option (List Interface) → Option (List Interface)
put none rest = none
put (some i) none = none
put (some i) (some is) = some (i ∷ is)

-- What both calls of `getnameinfo` answer, if none fails.
unfoldable pub both : Option Bytes → Option Bytes → Option (Bytes × Bytes)
both (some host) (some mask) = some (host, mask)
both (some host) none = none
both none mask = none

unfoldable pub named : Bytes → IpVersion → Bytes × Bytes → Option Interface
named name ver (host, mask) = elim (addr_text ver host) [
  | none ↦ none
  | some text ↦ some (interface_of name ver text mask)
]

-- The loop. A round with an address of one of the two families writes through `node` first.
unfoldable pub ip_loop : Node → List IfAddr → Option (List Interface)
ip_loop node [] = some []
ip_loop node (i ∷ is) = elim (version i.family) [
  | none ↦ ip_loop node is
  | some ver ↦ elim node [
    | freed ↦ none
    | null ↦ elim (both i.host i.mask) [
      | none ↦ ip_loop freed is
      | some texts ↦ put (named i.name ver texts) (ip_loop null is)
    ]
  ]
]

-- For what `getifaddrs` answers, if it succeeds.
unfoldable pub get_ip_addr : Option (List IfAddr) → Option (List Interface)
get_ip_addr none = some []
get_ip_addr (some is) = ip_loop null is
