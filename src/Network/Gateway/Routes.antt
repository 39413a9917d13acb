-- ===== src/Network/Gateway/Routes.antt =====
-- get_gateway on a route table as the kernel prints it.
use zsr.Prelude.{
  zero, suc, length, length-append, replicate, All-append, ◌≤◌, ℕ, ◌≡◌, ◌≢◌, ◌⊎◌, inl, inr,
  append_assoc, refl, ap, ◌∙◌, true, false, Option, none, some, List, [], ◌∷◌, ◌++◌, Bytes, codes,
  get_or, Bool-cases, map, All, arith,
}
use zsr.Libc.Lines.{newline, NoNewline, lines, join_lines, FitsBuffer, lines-join_lines}
use zsr.Libc.Words.{IsWord, scan_word_first}
use zsr.Libc.Scan.{scan_word, word, non_empty, scan_hex_digits, scan_lxs}
use zsr.Libc.Scan.Hex.{hex_text, hex_value, IsNumber, NoHex, scan_lxs-text}
use zsr.Network.{take}
use zsr.Network.Gateway.{route, route_of, is_default, route_loop, get_gateway}

-- A line of /proc/net/route: the hexadecimal digits of three numbers, between tabs, and the rest of it.
pub record RouteLine : Type 0 where
  pub iface : Bytes
  pub destination : List ℕ
  pub gateway : List ℕ
  pub flags : List ℕ
  pub rest : Bytes

abbrev pub route_line : RouteLine → Bytes
route_line r =
    r.iface
    ++ (9
        ∷ (hex_text r.destination
            ++ (9 ∷ (hex_text r.gateway ++ (9 ∷ (hex_text r.flags ++ r.rest))))))

pub record IsRoute (r : RouteLine) : Type 0 where
  pub iface : IsWord r.iface
  pub destination : IsNumber r.destination
  pub gateway : IsNumber r.gateway
  pub flags : IsNumber r.flags
  pub rest : NoHex r.rest
  pub fits : FitsBuffer 256 (route_line r)

-- A route to everywhere through a gateway, and up: RTF_UP and RTF_GATEWAY.
pub record IsDefault (r : RouteLine) : Type 0 where
  pub destination : hex_value 0 r.destination ≡ 0
  pub gateway : hex_value 0 r.gateway ≢ 0
  pub flags : hex_value 0 r.flags ≡ 3

values : RouteLine → List ℕ
values r = hex_value 0 r.destination ∷ hex_value 0 r.gateway ∷ hex_value 0 r.flags ∷ []

NoHex-newline : (s : Bytes) → NoHex s → NoHex (s ++ newline ∷ [])
NoHex-newline [] h = refl
NoHex-newline (c ∷ s) h = h

-- The columns behind the interface, with the text `s` at the end.
columns : RouteLine → Bytes → Bytes
columns r s =
    9
    ∷ (hex_text r.destination
        ++ (9 ∷ (hex_text r.gateway ++ (9 ∷ (hex_text r.flags ++ (r.rest ++ s))))))

line-columns : (r : RouteLine) (s : Bytes) → route_line r ++ s ≡ r.iface ++ columns r s
unfolding columns
line-columns r s = simp append_assoc

scan_lxs-columns :
    (r : RouteLine) (s : Bytes)
    → IsRoute r
    → NoHex (r.rest ++ s)
    → scan_lxs 3 (columns r s) ≡ values r
unfolding columns values scan_lxs
scan_lxs-columns r s h stops =
    scan_lxs-text 2 r.destination _ h.destination refl
    ∙ ap (λ t. hex_value 0 r.destination ∷ t)
        (scan_lxs-text 1 r.gateway _ h.gateway refl
          ∙ ap (λ t. hex_value 0 r.gateway ∷ t)
              (scan_lxs-text 0 r.flags (r.rest ++ s) h.flags stops))

route-line : (r : RouteLine) → IsRoute r → route (route_line r ++ newline ∷ []) ≡ values r
unfolding route columns
route-line r h =
    ap (λ t. route_of (scan_word t)) (line-columns r (newline ∷ []))
    ∙ ap route_of (scan_word_first r.iface (columns r (newline ∷ [])) h.iface refl)
    ∙ scan_lxs-columns r (newline ∷ []) h (NoHex-newline r.rest h.rest)

-- A line that the loop passes: a route to some place only, one without a gateway or with other flags, or
-- one whose gateway `inet_ntop` does not convert.
abbrev pub Passed : (ℕ → Option Bytes) → RouteLine → Type 0
Passed inet_ntop r =
    (hex_value 0 r.destination ≢ 0)
    ⊎ ((hex_value 0 r.gateway ≡ 0)
        ⊎ ((hex_value 0 r.flags ≢ 3) ⊎ (inet_ntop (hex_value 0 r.gateway) ≡ none)))

default_or_none :
    (inet_ntop : ℕ → Option Bytes) (r : RouteLine)
    → Passed inet_ntop r
    → (is_default (values r) ≡ false) ⊎ (inet_ntop (hex_value 0 r.gateway) ≡ none)
unfolding values
default_or_none inet_ntop r (inl far) = inl (ground arith)
default_or_none inet_ntop r (inr (inl direct)) = inl (ground arith)
default_or_none inet_ntop r (inr (inr (inl other))) = inl (ground arith)
default_or_none inet_ntop r (inr (inr (inr failed))) = inr failed

abbrev pub head : Bytes
head = codes "Iface\tDestination\tGateway \tFlags\tRefCnt\tUse\tMetric\tMask\t\tMTU\tWindow\tIRTT"

-- One line, by what the loop finds in it.
module _ (inet_ntop : ℕ → Option Bytes) (buf : Bytes) (bufs : List Bytes) (old : Bytes) where
  pass_other :
      is_default (route buf) ≡ false
      → route_loop inet_ntop (buf ∷ bufs) old ≡ route_loop inet_ntop bufs old
  unfolding route_loop
  pass_other other = rw (other, route_loop) refl

  pass_failed :
      inet_ntop (get_or (route buf) 1 0) ≡ none
      → route_loop inet_ntop (buf ∷ bufs) old ≡ route_loop inet_ntop bufs old
  unfolding route_loop
  pass_failed failed = elim (Bool-cases (is_default (route buf))) [
    | inl default ↦ rw (default, failed, route_loop) refl
    | inr other ↦ rw (other, route_loop) refl
  ]

  stop_default :
      (text : Bytes)
      → is_default (route buf) ≡ true
      → inet_ntop (get_or (route buf) 1 0) ≡ some text
      → route_loop inet_ntop (buf ∷ bufs) old ≡ take 64 text
  unfolding route_loop
  stop_default text default found = rw (default, found, route_loop) refl

pass-line :
    (inet_ntop : ℕ → Option Bytes) (r : RouteLine) (bufs : List Bytes) (old : Bytes)
    → IsRoute r
    → Passed inet_ntop r
    → route_loop inet_ntop ((route_line r ++ newline ∷ []) ∷ bufs) old
      ≡ route_loop inet_ntop bufs old
unfolding values
pass-line inet_ntop r bufs old line passed = elim (default_or_none inet_ntop r passed) [
  | inl other ↦ pass_other inet_ntop _ bufs old (ap is_default (route-line r line) ∙ other)
  | inr failed ↦
      pass_failed inet_ntop _ bufs old
        (ap (λ t. inet_ntop (get_or t 1 0)) (route-line r line) ∙ failed)
]

route_loop-default :
    (inet_ntop : ℕ → Option Bytes) (r : RouteLine) (bufs : List Bytes) (old text : Bytes)
    → IsRoute r
    → IsDefault r
    → inet_ntop (hex_value 0 r.gateway) ≡ some text
    → route_loop inet_ntop ((route_line r ++ newline ∷ []) ∷ bufs) old ≡ take 64 text
unfolding values
route_loop-default inet_ntop r bufs old text line d found =
    let default : is_default (values r) ≡ true = ground arith in
    stop_default inet_ntop _ bufs old text (ap is_default (route-line r line) ∙ default)
      (ap (λ t. inet_ntop (get_or t 1 0)) (route-line r line) ∙ found)

-- Whatever stands behind the names.
head-route : (s : Bytes) → route (head ++ s) ≡ 222 ∷ []
unfolding route scan_lxs scan_hex_digits scan_word word non_empty
head-route s = refl

abbrev with_newlines : List Bytes → List Bytes
with_newlines ls = map (λ l. l ++ newline ∷ []) ls

route_loop-table :
    (inet_ntop : ℕ → Option Bytes) (before : List RouteLine) (r : RouteLine) (bufs : List Bytes)
    (old text : Bytes)
    → All IsRoute before
    → All (Passed inet_ntop) before
    → IsRoute r
    → IsDefault r
    → inet_ntop (hex_value 0 r.gateway) ≡ some text
    → route_loop inet_ntop (with_newlines (map route_line (before ++ r ∷ [])) ++ bufs) old
      ≡ take 64 text
route_loop-table inet_ntop [] r bufs old text routes passed line d found =
    route_loop-default inet_ntop r bufs old text line d found
route_loop-table inet_ntop (b ∷ before) r bufs old text (route, routes) (p, passed) line d found =
    pass-line inet_ntop b (with_newlines (map route_line (before ++ r ∷ [])) ++ bufs) old route p
    ∙ route_loop-table inet_ntop before r bufs old text routes passed line d found

table-FitsBuffer :
    (before : List RouteLine) (r : RouteLine)
    → All IsRoute before
    → IsRoute r
    → All (FitsBuffer 256) (map route_line (before ++ r ∷ []))
table-FitsBuffer [] r routes line = (line.fits, tt)
table-FitsBuffer (b ∷ before) r (route, routes) line =
    (route.fits, table-FitsBuffer before r routes line)

-- The line of names, padded with blanks.
abbrev pub padded_head : ℕ → Bytes
padded_head pad = head ++ replicate pad 32

blanks-NoNewline : (pad : ℕ) → NoNewline (replicate pad 32)
blanks-NoNewline zero = tt
blanks-NoNewline (suc pad) = (omega arith, blanks-NoNewline pad)

length-blanks : (pad : ℕ) → length {A = ℕ} (replicate pad 32) ≡ pad
length-blanks zero = refl
length-blanks (suc pad) = ap suc (length-blanks pad)

head-FitsBuffer : (pad : ℕ) → pad ≤ 128 → FitsBuffer 256 (padded_head pad)
head-FitsBuffer pad h = record {
  clean =
      All-append (λ c. c ≢ newline) head (replicate pad 32) (omega arith) (blanks-NoNewline pad);
  short = omega (arith, length-append head (replicate pad 32), length-blanks pad);
}

-- /proc/net/route with its first line of names, padded with blanks as the kernel does, then routes that are
-- passed, then a route to everywhere through a gateway, and anything behind it, in lines of at most
-- 254 bytes: the gateway is the text that `inet_ntop` makes of that route's number, and nothing is
-- logged.
pub get_gateway-default :
    (inet_ntop : ℕ → Option Bytes) (pad : ℕ) (before : List RouteLine) (r : RouteLine)
    (rest old text : Bytes)
    → pad ≤ 128
    → All IsRoute before
    → All (Passed inet_ntop) before
    → IsRoute r
    → IsDefault r
    → inet_ntop (hex_value 0 r.gateway) ≡ some text
    → get_gateway inet_ntop
        (some (join_lines (padded_head pad ∷ map route_line (before ++ r ∷ [])) ++ rest))
        old
      ≡ (take 64 text, [])
unfolding get_gateway
get_gateway-default inet_ntop pad before r rest old text few routes passed line d found =
    let ls = map route_line (before ++ r ∷ []) in
    ap (λ t. (route_loop inet_ntop t old, []))
      (lines-join_lines 254 (padded_head pad ∷ ls) rest
        (head-FitsBuffer pad few, table-FitsBuffer before r routes line))
    ∙ ap (λ t. (t, []))
        (pass_other inet_ntop (padded_head pad ++ newline ∷ []) (with_newlines ls ++ lines 256 rest)
            old
            (ap (λ t. is_default (route t)) (append_assoc head (replicate pad 32) (newline ∷ []))
              ∙ ap is_default (head-route (replicate pad 32 ++ newline ∷ [])))
          ∙ route_loop-table inet_ntop before r (lines 256 rest) old text routes passed line d
              found)
