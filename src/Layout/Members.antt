-- ===== src/Layout/Members.antt =====
-- A load of a member by its name, as the compiler makes it from the layout of the type.
use Prim.Native.String.{String}
use container_lb.Base.{ℕ, ◌+◌, ◌-◌, ◌/◌, ◌%◌, ◌^◌, Option, some, ◌==◌, if◌then◌else◌}
use container_lb.Base.Monad.{◌>>=◌}
use container_lb.Packet.{Endian, Packet, load8, load16, load32}
use container_lb.Layout.{Ctype, Place, find}

-- The `w` bits from bit `from` of a byte on. Bit 0 is the lowest one on a little-endian target, and
-- the highest one on a big-endian target.
abbrev pub byte_bits : Endian → ℕ → ℕ → ℕ → ℕ
byte_bits Endian.little from w v = v / 2 ^ from % 2 ^ w
byte_bits Endian.big from w v = v / 2 ^ (8 - from - w) % 2 ^ w

-- The load of a place in an object at `base`: a number of 8, 16 or 32 bits, or a bit-field inside
-- of a byte.
abbrev pub load_place : Endian → Packet → ℕ → Place → Option ℕ
load_place e p base (start, w) =
    if w == 32
    then load32 e p (base + start / 8)
    else if w == 16
    then load16 e p (base + start / 8)
    else if w == 8
    then load8 p (base + start / 8)
    else do v ← load8 p (base + start / 8); some (byte_bits e (start % 8) w v)

unfoldable pub load_member : Endian → Packet → ℕ → Ctype → String → Option ℕ
load_member e p base t name = do place ← find name t; load_place e p base place
