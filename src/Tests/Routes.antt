-- ===== src/Tests/Routes.antt =====
-- The default route in a route table.
use zsr.Prelude.{◌++◌, ◌≡◌, some, inr, inl, refl, [], ◌∷◌, codes, map, arith}
use zsr.Libc.Lines.{join_lines}
use zsr.Network.{take}
use zsr.Network.Gateway.{get_gateway}
use zsr.Network.Gateway.Routes.{
  RouteLine, route_line, padded_head, IsRoute, IsDefault, get_gateway-default,
}

-- A route to the local network only.
abbrev local : RouteLine
local = record {
  iface = codes "eth0";
  destination = 0 ∷ 0 ∷ 0 ∷ 1 ∷ 10 ∷ 8 ∷ 12 ∷ 0 ∷ [];
  gateway = 0 ∷ 0 ∷ 0 ∷ 0 ∷ 0 ∷ 0 ∷ 0 ∷ 0 ∷ [];
  flags = 0 ∷ 0 ∷ 0 ∷ 1 ∷ [];
  rest = codes "\t0\t0\t0\t00FFFFFF";
}

abbrev default : RouteLine
default = record {
  iface = codes "eth0";
  destination = 0 ∷ 0 ∷ 0 ∷ 0 ∷ 0 ∷ 0 ∷ 0 ∷ 0 ∷ [];
  gateway = 0 ∷ 1 ∷ 0 ∷ 1 ∷ 10 ∷ 8 ∷ 12 ∷ 0 ∷ [];
  flags = 0 ∷ 0 ∷ 0 ∷ 3 ∷ [];
  rest = codes "\t0\t0\t0\t00000000";
}

local-IsRoute : IsRoute local
local-IsRoute = ground arith

default-IsRoute : IsRoute default
default-IsRoute = ground arith

default-IsDefault : IsDefault default
default-IsDefault = ground arith

get_gateway-default_example :
    get_gateway
      (λ n. some (codes "192.168.1.1"))
      (some
        (join_lines (padded_head 55 ∷ map route_line ((local ∷ []) ++ default ∷ [])) ++ codes "x"))
      []
    ≡ (take 64 (codes "192.168.1.1"), [])
get_gateway-default_example =
    get_gateway-default (λ n. some (codes "192.168.1.1")) 55 (local ∷ []) default (codes "x") []
      (codes "192.168.1.1") (omega arith) (local-IsRoute, tt) (inr (inl refl), tt) default-IsRoute
      default-IsDefault refl
