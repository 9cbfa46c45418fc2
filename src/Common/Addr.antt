-- ===== src/Common/Addr.antt =====
-- Go's `netip.Addr` as far as the program looks into it: the zero value, an IPv4 address by its four
-- bytes, or an IPv6 address by its bytes.
use Prim.Native.Nat.{ℕ, ◌+◌}
use mathlib.Core.Bool.{Bool, true, false, ◌&&◌}
use mathlib.Core.List.{List, [], ◌∷◌}
use vectorcore_sgw.Common.Tests.{nat_beq}
use vectorcore_sgw.Common.Bytes.{byte_at}

pub data Addr : Type 0 where
  no_addr : Addr
  ip4 : ℕ → ℕ → ℕ → ℕ → Addr
  ip6 : List ℕ → Addr

-- `IsValid`
abbrev pub is_valid : Addr → Bool
is_valid no_addr = false
is_valid other = true

abbrev pub is_ip4 : Addr → Bool
is_ip4 (ip4 a b c d) = true
is_ip4 other = false

abbrev bytes_same : List ℕ → List ℕ → Bool
bytes_same [] [] = true
bytes_same (x ∷ xs) (y ∷ ys) = nat_beq x y && bytes_same xs ys
bytes_same xs ys = false

-- `==`
abbrev pub same_addr : Addr → Addr → Bool
same_addr no_addr no_addr = true
same_addr (ip4 a b c d) (ip4 a' b' c' d') =
    nat_beq a a' && nat_beq b b' && nat_beq c c' && nat_beq d d'
same_addr (ip6 xs) (ip6 ys) = bytes_same xs ys
same_addr x y = false

-- `netip.AddrFrom4` of the four bytes from the place `i` on
abbrev pub ip4_at : List ℕ → ℕ → Addr
ip4_at b i = ip4 (byte_at b i) (byte_at b (i + 1)) (byte_at b (i + 2)) (byte_at b (i + 3))
