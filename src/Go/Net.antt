-- ===== src/Go/Net.antt =====
-- `net.IP` and `net.HardwareAddr` of Go's package net, as far as the control plane uses them, and
-- `binary.NativeEndian`.
use container_lb.Base.{
  ℕ, Bool, true, false, ◌&&◌, Option, none, some, List, [], ◌∷◌, ◌==◌, if◌then◌else◌,
}
use container_lb.Types.{EthAddr, zero_mac}
use container_lb.Packet.{Endian, word32}

-- The bytes of an address: 4, or 16, or none at all for a nil address.
abbrev pub Ip : Type 0
Ip = List ℕ

abbrev pub HardwareAddr : Type 0
HardwareAddr = List ℕ

-- The four bytes of an IPv4 address.
pub record V4 : Type 0 where
  pub a : ℕ
  pub b : ℕ
  pub c : ℕ
  pub d : ℕ

-- The 16-byte form of an IPv4 address begins with ten zeros and ff ff.
abbrev is_mapped : List ℕ → Bool
is_mapped (z0 ∷ z1 ∷ z2 ∷ z3 ∷ z4 ∷ z5 ∷ z6 ∷ z7 ∷ z8 ∷ z9 ∷ f0 ∷ f1 ∷ rest) =
    z0 == 0
    && z1 == 0
    && z2 == 0
    && z3 == 0
    && z4 == 0
    && z5 == 0
    && z6 == 0
    && z7 == 0
    && z8 == 0
    && z9 == 0
    && f0 == 255
    && f1 == 255
is_mapped _ = false

-- `ip.To4()`
unfoldable pub to4 : Ip → Option V4
to4 (a ∷ b ∷ c ∷ d ∷ []) = some (record { a = a; b = b; c = c; d = d })
to4 (z0 ∷ z1 ∷ z2 ∷ z3 ∷ z4 ∷ z5 ∷ z6 ∷ z7 ∷ z8 ∷ z9 ∷ f0 ∷ f1 ∷ a ∷ b ∷ c ∷ d ∷ []) =
    if is_mapped (z0 ∷ z1 ∷ z2 ∷ z3 ∷ z4 ∷ z5 ∷ z6 ∷ z7 ∷ z8 ∷ z9 ∷ f0 ∷ f1 ∷ [])
    then some (record { a = a; b = b; c = c; d = d })
    else none
to4 _ = none

abbrev bytes_equal : List ℕ → List ℕ → Bool
bytes_equal [] [] = true
bytes_equal (x ∷ xs) (y ∷ ys) = x == y && bytes_equal xs ys
bytes_equal _ _ = false

abbrev pub v4_equal : V4 → V4 → Bool
v4_equal x y = x.a == y.a && x.b == y.b && x.c == y.c && x.d == y.d

abbrev pub equal_forms : Ip → Ip → Option V4 → Option V4 → Bool
equal_forms x y (some v) (some w) = v4_equal v w
equal_forms x y none none = bytes_equal x y
equal_forms x y _ _ = false

-- `x.Equal(y)`: an IPv4 address equals its 16-byte form.
unfoldable pub equal : Ip → Ip → Bool
equal x y = equal_forms x y (to4 x) (to4 y)

-- `binary.NativeEndian.Uint32(v4)`
abbrev pub uint32 : Endian → V4 → ℕ
uint32 e v = word32 e v.a v.b v.c v.d

-- `var out [6]uint8; if len(mac) == 6 { copy(out[:], mac) }`
unfoldable pub to_mac : HardwareAddr → EthAddr
to_mac (b0 ∷ b1 ∷ b2 ∷ b3 ∷ b4 ∷ b5 ∷ []) = record {
  b0 = b0;
  b1 = b1;
  b2 = b2;
  b3 = b3;
  b4 = b4;
  b5 = b5;
}
to_mac _ = zero_mac
