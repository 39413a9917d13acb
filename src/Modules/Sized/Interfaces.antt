-- ===== src/Modules/Sized/Interfaces.antt =====
-- The fields of the addresses that get_ip_addr of libzsr/ip.c lists.
use zsr.Prelude.{Option, none, some, List, [], ◌∷◌, Bytes, All, arith}
use zsr.Network.{IfAddr, take}
use zsr.Network.Ip
use zsr.Network.Ip.{
  IpVersion, ipv4, ipv6, Interface, addr_text, addr_len, interface_of, put, both, version, ip_loop,
  Node, null, freed, get_ip_addr,
}
use zsr.Modules.Sized.{IsField, SizedInterface}
use zsr.Modules.Sized.Answers.{take-IsField, OfSome}

ip_named-Sized :
    (name : Bytes) (ver : IpVersion) (host mask : Bytes)
    → OfSome SizedInterface (Ip.named name ver (host, mask))
unfolding Ip.named
ip_named-Sized name ver host mask = of_text ver (addr_text ver host)
  where
    len : (v : IpVersion) (s : Bytes) → IsField 64 (take (addr_len v) s)
    len ipv4 s = omega (arith, take-IsField 16 s)
    len ipv6 s = omega (arith, take-IsField 46 s)

    of_text :
        (v : IpVersion) (o : Option Bytes)
        → OfSome SizedInterface (elim o as (λ x. Option Interface) [
          | none ↦ none
          | some text ↦ some (interface_of name v text mask)
        ])
    of_text v none = tt
    of_text v (some text) = record {
      dev = take-IsField 64 name;
      ip_addr = len v text;
      netmask = len v mask;
    }

put-Sized :
    (i : Option Interface) (rest : Option (List Interface))
    → OfSome SizedInterface i
    → OfSome (All SizedInterface) rest
    → OfSome (All SizedInterface) (put i rest)
put-Sized none rest h hs = tt
put-Sized (some i) none h hs = tt
put-Sized (some i) (some is) h hs = (h, hs)

-- A round of the loop, for any rest of it.
ip_step-Sized :
    (o : Option IpVersion) (node : Node) (texts : Option (Bytes × Bytes)) (name : Bytes)
    (rest : Node → Option (List Interface))
    → ((n : Node) → OfSome (All SizedInterface) (rest n))
    → OfSome (All SizedInterface) (elim o as (λ x. Option (List Interface)) [
      | none ↦ rest node
      | some ver ↦ elim node as (λ x. Option (List Interface)) [
        | freed ↦ none
        | null ↦ elim texts as (λ x. Option (List Interface)) [
          | none ↦ rest freed
          | some both_texts ↦ put (Ip.named name ver both_texts) (rest null)
        ]
      ]
    ])
ip_step-Sized none node texts name rest h = h node
ip_step-Sized (some ver) freed texts name rest h = tt
ip_step-Sized (some ver) null none name rest h = h freed
ip_step-Sized (some ver) null (some (host, mask)) name rest h =
    put-Sized (Ip.named name ver (host, mask)) (rest null) (ip_named-Sized name ver host mask)
      (h null)

ip_loop-Sized : (is : List IfAddr) (node : Node) → OfSome (All SizedInterface) (ip_loop node is)
unfolding ip_loop
ip_loop-Sized [] node = tt
ip_loop-Sized (i ∷ is) node =
    ip_step-Sized (version i.family) node (both i.host i.mask) i.name (λ n. ip_loop n is)
      (λ n. ip_loop-Sized is n)

pub get_ip_addr-Sized : (is : Option (List IfAddr)) → OfSome (All SizedInterface) (get_ip_addr is)
unfolding get_ip_addr
get_ip_addr-Sized none = tt
get_ip_addr-Sized (some is) = ip_loop-Sized is null
