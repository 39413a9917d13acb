-- ===== src/Modules/Sized/Answers.antt =====
-- What the readers of the network, the users and the file systems make of the C library's answers.
use zsr.Prelude.{
  ℕ, zero, suc, inl, inr, Option, none, some, List, [], ◌∷◌, Bytes, get_or, All, Bool-cases, ◌==◌,
  arith,
}
use zsr.Libc.Lines.{lines}
use zsr.Network.{
  IfAddr, LinkStats, Family, inet, inet6, packet, unspecified, cons_some, take, link_of, links,
  get_network,
}
use zsr.Network.Dns.{is_local_host, dns_loop, get_dns}
use zsr.Network.Gateway.{route, is_default, route_loop, get_gateway}
use zsr.Host.{Utmp, user_process, get_login_user}
use zsr.Modules.Sized.{IsU64, IsField, SizedLink, SizedUser}

pub take-IsField : (n : ℕ) (s : Bytes) → IsField n (take n s)
take-IsField zero s = omega arith
take-IsField (suc n) [] = omega arith
take-IsField (suc n) (c ∷ s) = omega (arith, take-IsField n s)

-- The answers from outside are values of their types.
pub record SizedStats (s : LinkStats) : Type 0 where
  pub tx_packets : IsU64 s.tx_packets
  pub rx_packets : IsU64 s.rx_packets
  pub tx_bytes : IsU64 s.tx_bytes
  pub rx_bytes : IsU64 s.rx_bytes

abbrev pub OfSome : {A : Type 0} → (A → Type 0) → Option A → Type 0
OfSome P none = Unit
OfSome P (some x) = P x

link_of-Sized :
    (name : Bytes) (family : Option Family) (link : Option LinkStats)
    → OfSome SizedStats link
    → OfSome SizedLink (link_of name family link)
link_of-Sized name (some packet) (some s) h = record {
  dev = take-IsField 64 name;
  tx_packet = h.tx_packets;
  rx_packet = h.rx_packets;
  tx_byte = h.tx_bytes;
  rx_byte = h.rx_bytes;
}
link_of-Sized name (some packet) none h = tt
link_of-Sized name (some inet) link h = tt
link_of-Sized name (some inet6) link h = tt
link_of-Sized name (some unspecified) link h = tt
link_of-Sized name none link h = tt

All-cons_some :
    {A : Type 0} (P : A → Type 0) (o : Option A) (xs : List A)
    → OfSome P o
    → All P xs
    → All P (cons_some o xs)
All-cons_some P none xs h hs = hs
All-cons_some P (some x) xs h hs = (h, hs)

pub links-Sized :
    (is : List IfAddr) → All (λ i. OfSome SizedStats i.link) is → All SizedLink (links is)
unfolding links
links-Sized [] h = tt
links-Sized (i ∷ is) (fit, h) =
    All-cons_some SizedLink (link_of i.name i.family i.link) (links is)
      (link_of-Sized i.name i.family i.link fit) (links-Sized is h)

pub dns_loop-IsField : (servers : List (Option Bytes)) → All (IsField 64) (dns_loop servers)
unfolding dns_loop
dns_loop-IsField [] = tt
dns_loop-IsField (none ∷ servers) = dns_loop-IsField servers
dns_loop-IsField (some addr ∷ servers) = elim (Bool-cases (is_local_host addr)) [
  | inl local ↦ rw local (dns_loop-IsField servers)
  | inr other ↦ rw other (take-IsField 64 addr, dns_loop-IsField servers)
]

text-IsField :
    (o : Option Bytes) (rest : Bytes)
    → IsField 64 rest
    → IsField 64 (elim o as (λ x. Bytes) [ none ↦ rest | some text ↦ take 64 text ])
text-IsField none rest h = h
text-IsField (some text) rest h = take-IsField 64 text

route_loop-IsField :
    (inet_ntop : ℕ → Option Bytes) (bufs : List Bytes) (addr : Bytes)
    → IsField 64 addr
    → IsField 64 (route_loop inet_ntop bufs addr)
unfolding route_loop
route_loop-IsField inet_ntop [] addr h = h
route_loop-IsField inet_ntop (buf ∷ bufs) addr h = elim (Bool-cases (is_default (route buf))) [
  | inl default ↦
      rw (default, route_loop)
        (text-IsField (inet_ntop (get_or (route buf) 1 0)) (route_loop inet_ntop bufs addr)
          (route_loop-IsField inet_ntop bufs addr h))
  | inr other ↦ rw (other, route_loop) (route_loop-IsField inet_ntop bufs addr h)
]

pub get_gateway-IsField :
    (inet_ntop : ℕ → Option Bytes) (text : Option Bytes) (addr : Bytes)
    → IsField 64 addr
    → IsField 64 (get_gateway inet_ntop text addr).0
unfolding get_gateway
get_gateway-IsField inet_ntop none addr h = h
get_gateway-IsField inet_ntop (some text) addr h =
    route_loop-IsField inet_ntop (lines 256 text) addr h

pub get_login_user-Sized :
    (ups : List Utmp) → All (λ up. IsU64 up.ut_time) ups → All SizedUser (get_login_user ups)
unfolding get_login_user
get_login_user-Sized [] h = tt
get_login_user-Sized (up ∷ ups) (fit, h) = elim (Bool-cases (up.ut_type == user_process)) [
  | inl process ↦ rw process (
    record {
      user = take-IsField 32 up.ut_user;
      tty = take-IsField 32 up.ut_line;
      from = take-IsField 256 up.ut_host;
      login_time = fit;
    },
    get_login_user-Sized ups h,
  )
  | inr other ↦ rw other (get_login_user-Sized ups h)
]

pub get_network-Sized :
    (is : Option (List IfAddr))
    → OfSome (All (λ i. OfSome SizedStats i.link)) is
    → All SizedLink (get_network is)
unfolding get_network
get_network-Sized none h = tt
get_network-Sized (some is) h = links-Sized is h

pub get_dns-IsField : (servers : Option (List (Option Bytes))) → All (IsField 64) (get_dns servers)
unfolding get_dns
get_dns-IsField none = tt
get_dns-IsField (some servers) = dns_loop-IsField servers
