-- ===== src/Modules/Buffer/Counts.antt =====
-- No reader adds more entries than there are answers, lines or directories.
use zsr.Prelude.{ℕ, ◌+◌, ◌≤◌, Option, none, some, List, [], ◌∷◌, Bytes, length, arith}
use zsr.Network.{IfAddr, link_of, cons_some, links, get_network}
use zsr.Network.Ip
use zsr.Network.Ip.{
  IpVersion, Interface, Node, null, freed, version, both, put, ip_loop, get_ip_addr,
}
use zsr.Network.Dns.{dns_loop, get_dns}
use zsr.Host.{Utmp, get_login_user}
use zsr.Modules.Sized.Answers.{OfSome}

-- At most `n` entries.
abbrev pub AtMost : {A : Type 0} → ℕ → List A → Type 0
AtMost n xs = length xs ≤ n

dns_loop-length : (servers : List (Option Bytes)) → length (dns_loop servers) ≤ length servers
unfolding dns_loop
dns_loop-length [] = omega arith
dns_loop-length (none ∷ servers) = omega (arith, dns_loop-length servers)
dns_loop-length (some addr ∷ servers) = ground (arith, dns_loop-length servers)

pub get_dns-AtMost :
    (n : ℕ) (servers : Option (List (Option Bytes)))
    → OfSome (AtMost n) servers
    → AtMost n (get_dns servers)
unfolding get_dns
get_dns-AtMost n none h = omega arith
get_dns-AtMost n (some servers) h = omega (arith, dns_loop-length servers)

cons_some-length :
    {A : Type 0} (o : Option A) (xs : List A) → length (cons_some o xs) ≤ 1 + length xs
cons_some-length none xs = omega arith
cons_some-length (some x) xs = omega arith

links-length : (is : List IfAddr) → length (links is) ≤ length is
unfolding links
links-length [] = omega arith
links-length (i ∷ is) =
    omega (arith, cons_some-length (link_of i.name i.family i.link) (links is), links-length is)

pub get_network-AtMost :
    (n : ℕ) (is : Option (List IfAddr)) → OfSome (AtMost n) is → AtMost n (get_network is)
unfolding get_network
get_network-AtMost n none h = omega arith
get_network-AtMost n (some is) h = omega (arith, links-length is)

put-AtMost :
    (n : ℕ) (i : Option Interface) (rest : Option (List Interface))
    → OfSome (AtMost n) rest
    → OfSome (λ xs. length xs ≤ 1 + n) (put i rest)
put-AtMost n none rest h = tt
put-AtMost n (some i) none h = tt
put-AtMost n (some i) (some is) h = omega arith

weaken :
    {A : Type 0} (n : ℕ) (o : Option (List A))
    → OfSome (AtMost n) o
    → OfSome (λ xs. length xs ≤ 1 + n) o
weaken n none h = tt
weaken n (some xs) h = omega arith

ip_step-AtMost :
    (n : ℕ) (o : Option IpVersion) (node : Node) (texts : Option (Bytes × Bytes)) (name : Bytes)
    (rest : Node → Option (List Interface))
    → ((m : Node) → OfSome (AtMost n) (rest m))
    → OfSome
        (λ (xs : List Interface). length xs ≤ 1 + n)
        (elim o as (λ x. Option (List Interface)) [
          | none ↦ rest node
          | some ver ↦ elim node as (λ x. Option (List Interface)) [
            | freed ↦ none
            | null ↦ elim texts as (λ x. Option (List Interface)) [
              | none ↦ rest freed
              | some both_texts ↦ put (Ip.named name ver both_texts) (rest null)
            ]
          ]
        ])
ip_step-AtMost n none node texts name rest h = weaken n (rest node) (h node)
ip_step-AtMost n (some ver) freed texts name rest h = tt
ip_step-AtMost n (some ver) null none name rest h = weaken n (rest freed) (h freed)
ip_step-AtMost n (some ver) null (some texts) name rest h =
    put-AtMost n (Ip.named name ver texts) (rest null) (h null)

pub up_to :
    {A : Type 0} (m n : ℕ) (o : Option (List A))
    → m ≤ n
    → OfSome (λ xs. length xs ≤ m) o
    → OfSome (AtMost n) o
up_to m n none le h = tt
up_to m n (some xs) le h = omega arith

ip_loop-AtMost : (is : List IfAddr) (node : Node) → OfSome (AtMost (length is)) (ip_loop node is)
unfolding ip_loop
ip_loop-AtMost [] node = omega arith
ip_loop-AtMost (i ∷ is) node = up_to (1 + length is) (length (i ∷ is)) _ (omega arith) (
    ip_step-AtMost (length is) (version i.family) node (both i.host i.mask) i.name
      (λ m. ip_loop m is) (λ m. ip_loop-AtMost is m))

pub get_ip_addr-AtMost :
    (n : ℕ) (is : Option (List IfAddr)) → OfSome (AtMost n) is → OfSome (AtMost n) (get_ip_addr is)
unfolding get_ip_addr
get_ip_addr-AtMost n none h = omega arith
get_ip_addr-AtMost n (some is) h = up_to (length is) n (ip_loop null is) h (ip_loop-AtMost is null)

get_login_user-length : (ups : List Utmp) → length (get_login_user ups) ≤ length ups
unfolding get_login_user
get_login_user-length [] = omega arith
get_login_user-length (up ∷ ups) = ground (arith, get_login_user-length ups)

pub get_login_user-AtMost : (n : ℕ) (ups : List Utmp) → AtMost n ups → AtMost n (get_login_user ups)
get_login_user-AtMost n ups h = omega (arith, get_login_user-length ups)
