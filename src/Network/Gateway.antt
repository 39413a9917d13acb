-- ===== src/Network/Gateway.antt =====
-- libzsr/gateway.c: get_gateway, the default route of /proc/net/route. The text that `inet_ntop` makes
-- of an address comes from outside.
pub mod Routes
use zsr.Prelude.{
  ℕ, Bool, true, false, ◌&&◌, not, Option, none, some, List, [], ◌∷◌, Bytes, get_or, ◌==◌,
}
use zsr.Libc.Lines.{lines}
use zsr.Libc.Scan.{scan_word, scan_lxs}
use zsr.Log.{LogCall, log_error_of}
use zsr.Network.{take}

-- The values of "%*s%lx%lx%lx" that are converted, destination, gateway and flags.
abbrev pub route_of : Option (Bytes × Bytes) → List ℕ
route_of none = []
route_of (some (iface, s)) = scan_lxs 3 s

unfoldable pub route : Bytes → List ℕ
route buf = route_of (scan_word buf)

-- Flags 3, destination 0, and a gateway; what is not converted is 0.
abbrev pub is_default : List ℕ → Bool
is_default r = get_or r 2 0 == 3 && (get_or r 0 0 == 0 && not (get_or r 1 0 == 0))

-- `gateway_t` is its only field, which keeps its text if no route fits.
unfoldable pub route_loop : (ℕ → Option Bytes) → List Bytes → Bytes → Bytes
route_loop inet_ntop [] addr = addr
route_loop inet_ntop (buf ∷ bufs) addr = elim (is_default (route buf)) [
  | true ↦ elim (inet_ntop (get_or (route buf) 1 0)) [
    | none ↦ route_loop inet_ntop bufs addr
    | some text ↦ take 64 text
  ]
  | false ↦ route_loop inet_ntop bufs addr
]

unfoldable pub get_gateway : (ℕ → Option Bytes) → Option Bytes → Bytes → Bytes × List LogCall
get_gateway inet_ntop none addr = (addr, log_error_of "/proc/net/route" ∷ [])
get_gateway inet_ntop (some text) addr = (route_loop inet_ntop (lines 256 text) addr, [])
