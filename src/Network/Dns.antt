-- ===== src/Network/Dns.antt =====
-- libzsr/dns.c: get_dns. `res_init` and the texts of `inet_ntoa` come from outside.
use zsr.Prelude.{
  Bool, ◌||◌, Option, none, some, List, [], ◌∷◌, Bytes, codes, same_text, if◌then◌else◌,
}
use zsr.Network.{take}

unfoldable pub is_local_host : Bytes → Bool
is_local_host s =
    same_text s (codes "0.0.0.0")
    || (same_text s (codes "127.0.0.1") || (same_text s (codes "::") || same_text s (codes "::1")))

-- The loop over the servers: the text of each address, none for NULL. `dns_t` is its only field.
unfoldable pub dns_loop : List (Option Bytes) → List Bytes
dns_loop [] = []
dns_loop (none ∷ servers) = dns_loop servers
dns_loop (some addr ∷ servers) =
    let rest = dns_loop servers in if is_local_host addr then rest else take 64 addr ∷ rest

-- For the servers that the resolver has, if `res_init` succeeds.
unfoldable pub get_dns : Option (List (Option Bytes)) → List Bytes
unfolding dns_loop
get_dns none = []
get_dns (some servers) = dns_loop servers
