-- ===== src/Network/Ip/Safety.antt =====
-- When `get_ip_addr` writes to freed memory, and what it lists otherwise.
use zsr.Prelude.{
  ◌≡◌, refl, sym, ap, ◌∙◌, ◌⊎◌, inl, inr, Option, Option-cases, none, some, List, [], ◌∷◌, Bytes,
  All,
}
use zsr.Network.{IfAddr, cons_some}
use zsr.Network.Ip.{
  IpVersion, ipv4, ipv6, Interface, Node, null, freed, version, first_token, both, interface_of,
  named, put, ip_loop, get_ip_addr,
}

-- An address of one of the two families.
abbrev pub IsInet : IfAddr → Type 0
IsInet i = (v : IpVersion) × (version i.family ≡ some v)

abbrev pub HasInet : List IfAddr → Type 0
HasInet [] = ⊥
HasInet (i ∷ is) = IsInet i ⊎ HasInet is

-- Of an address of one of the two families `getnameinfo` fails, and another one comes later.
abbrev pub WritesFreed : List IfAddr → Type 0
WritesFreed [] = ⊥
WritesFreed (i ∷ is) = (IsInet i × (both i.host i.mask ≡ none) × HasInet is) ⊎ WritesFreed is

-- The host's text is not empty, nor only a zone.
abbrev pub HasText : IfAddr → Type 0
HasText i = (host : Bytes) → i.host ≡ some host → (text : Bytes) × (first_token host ≡ some text)

-- What an address contributes: an entry if it is of one of the two families and both texts are known.
abbrev of_texts : Bytes → IpVersion → Option (Bytes × Bytes) → Option Interface
of_texts name v none = none
of_texts name v (some texts) = named name v texts

abbrev pub entry_of : Bytes → Option IpVersion → Option (Bytes × Bytes) → Option Interface
entry_of name none texts = none
entry_of name (some v) texts = of_texts name v texts

abbrev pub interfaces : List IfAddr → List Interface
interfaces [] = []
interfaces (i ∷ is) =
    cons_some (entry_of i.name (version i.family) (both i.host i.mask)) (interfaces is)

loop-other :
    (i : IfAddr) (is : List IfAddr) (node : Node)
    → version i.family ≡ none
    → ip_loop node (i ∷ is) ≡ ip_loop node is
unfolding ip_loop
loop-other i is node e = rw (e, ip_loop) refl

loop-freed : (i : IfAddr) (is : List IfAddr) → IsInet i → ip_loop freed (i ∷ is) ≡ none
unfolding ip_loop
loop-freed i is (v, e) = rw (e, ip_loop) refl

loop-failed :
    (i : IfAddr) (is : List IfAddr)
    → IsInet i
    → both i.host i.mask ≡ none
    → ip_loop null (i ∷ is) ≡ ip_loop freed is
unfolding ip_loop
loop-failed i is (v, e) h = rw (e, h, ip_loop) refl

loop-listed :
    (i : IfAddr) (is : List IfAddr) (v : IpVersion) (texts : Bytes × Bytes)
    → version i.family ≡ some v
    → both i.host i.mask ≡ some texts
    → ip_loop null (i ∷ is) ≡ put (named i.name v texts) (ip_loop null is)
unfolding ip_loop
loop-listed i is v texts e h = rw (e, h, ip_loop) refl

-- Once `node` is freed, the next address of one of the two families is a fault.
freed_lem :
    (is : List IfAddr)
    → (HasInet is → ip_loop freed is ≡ none)
      × (¬ HasInet is → (ip_loop freed is ≡ some []) × (interfaces is ≡ []))
freed_lem [] = (λ h. absurd h, λ n. (unfold ip_loop in refl, refl))
freed_lem (i ∷ is) = elim (Option-cases (version i.family)) [
  | inl e ↦ (
    λ h. elim h [
      | inl here ↦ cc (here.1, e)
      | inr there ↦ loop-other i is freed e ∙ (freed_lem is).0 there
    ],
    λ n. (
      loop-other i is freed e ∙ ((freed_lem is).1 (λ h. n (inr h))).0,
      rw e ((freed_lem is).1 (λ h. n (inr h))).1,
    ),
  )
  | inr inet ↦ (λ h. loop-freed i is inet, λ n. absurd (n (inl inet)))
]

HasInet-WritesFreed : (is : List IfAddr) → WritesFreed is → HasInet is
HasInet-WritesFreed [] w = absurd w
HasInet-WritesFreed (i ∷ is) (inl (inet, _, _)) = inl inet
HasInet-WritesFreed (i ∷ is) (inr later) = inr (HasInet-WritesFreed is later)

named-some :
    (i : IfAddr) (v : IpVersion) (texts : Bytes × Bytes)
    → HasText i
    → both i.host i.mask ≡ some texts
    → (e : Interface) × (named i.name v texts ≡ some e)
unfolding named both
named-some i ipv4 (host, mask) text h = (interface_of i.name ipv4 host mask, refl)
named-some i ipv6 (host, mask) text h =
    let (t, e) = text host (host_of i.host i.mask host mask h) in
    (interface_of i.name ipv6 t mask, rw (e, named) refl)
  where
    host_of : (o m : Option Bytes) (a b : Bytes) → both o m ≡ some (a, b) → o ≡ some a
    host_of none m a b k = cc
    host_of (some c) none a b k = cc
    host_of (some c) (some d) a b k = cc

-- Where each host has a text: the function writes to freed memory if `getnameinfo` fails for an
-- address of one of the two families and another such address comes later. Otherwise it lists, in
-- their order, the addresses of the two families for which both texts are known, and no others.
pub get_ip_addr-WritesFreed :
    (is : List IfAddr)
    → All HasText is
    → (WritesFreed is → get_ip_addr (some is) ≡ none)
      × (¬ WritesFreed is → get_ip_addr (some is) ≡ some (interfaces is))
unfolding get_ip_addr
get_ip_addr-WritesFreed [] h = (λ w. absurd w, λ n. unfold ip_loop in refl)
get_ip_addr-WritesFreed (i ∷ is) (text, h) =
    let (faults, lists) = get_ip_addr-WritesFreed is h in
    elim (Option-cases (version i.family)) [
      | inl e ↦ (
        λ w. elim w [
          | inl (inet, _, _) ↦ cc (inet.1, e)
          | inr later ↦ loop-other i is null e ∙ faults later
        ],
        λ n. rw e (loop-other i is null e ∙ lists (λ w. n (inr w))),
      )
      | inr (v, e) ↦ elim (Option-cases (both i.host i.mask)) [
        | inl failed ↦ (
          λ w.
              loop-failed i is (v, e) failed
              ∙ (freed_lem is).0
                  (elim w [ inl (_, _, later) ↦ later | inr later ↦ HasInet-WritesFreed is later ]),
          λ n.
              let (stops, none_left) =
                (freed_lem is).1 (λ later. n (inl ((v, e), failed, later))) in
              rw (e, failed) (loop-failed i is (v, e) failed ∙ stops ∙ ap some (sym none_left)),
        )
        | inr (texts, known) ↦
            let (entry, made) = named-some i v texts text known in
            (
              λ w. elim w [
                | inl (_, failed, _) ↦ cc (known, failed)
                | inr later ↦
                    loop-listed i is v texts e known
                    ∙ ap (put (named i.name v texts)) (faults later)
                    ∙ rw made refl
              ],
              λ n.
                  loop-listed i is v texts e known
                  ∙ ap (put (named i.name v texts)) (lists (λ w. n (inr w)))
                  ∙ rw (e, known, made) refl,
            )
      ]
    ]
