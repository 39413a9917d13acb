-- ===== src/Common/Address.antt =====
-- libzsr/common.c: is_ipv4_addr and is_ipv6_addr, over what `inet_pton` returns for a family and a text.
use zsr.Prelude.{Bool, false, Option, none, some, Bytes, ◌==◌}
use zsr.Prelude.Signed.{ℤ, pos, negsuc}
use zsr.Network.{Family, inet, inet6}

-- `result == 1`.
abbrev is_one : ℤ → Bool
is_one (pos n) = n == 1
is_one (negsuc n) = false

module _ (inet_pton : Family → Bytes → ℤ) where
  -- `none` is a null pointer.
  abbrev is_ipv4_addr : Option Bytes → Bool
  is_ipv4_addr none = false
  is_ipv4_addr (some s) = is_one (inet_pton inet s)

  abbrev is_ipv6_addr : Option Bytes → Bool
  is_ipv6_addr none = false
  is_ipv6_addr (some s) = is_one (inet_pton inet6 s)
