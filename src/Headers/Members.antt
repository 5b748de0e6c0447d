-- ===== src/Headers/Members.antt =====
-- The bit-field `ihl` of kernelspace/vmlinux.h against the header length of Headers.
use container_lb.Base.{ap, inl, inr, Bool-cases, ltb, ◌≡◌, refl, some, arith}
use mathlib.Core.Option
use container_lb.Packet.{Endian, Packet, load8}
use container_lb.Checksum.Rewrite.{IsBytes}
use container_lb.Headers.Eth
use container_lb.Headers.Ip
use container_lb.Layout.{sizeof, find}
use container_lb.Layout.Members.{load_member}
use container_lb.Vmlinux.Headers.{iphdr}

-- The place of the bit-field `ihl` in its byte gives the header length that the programs compute,
-- where the bytes are below 256: the low half on a little-endian target, and on a big-endian one
-- the high half, which holds the version.
pub ihl-load :
    (e : Endian) (p : Packet)
    → IsBytes p
    → load_member e p Eth.size iphdr "ihl" ≡ Option.map (Ip.ihl e) (load8 p Eth.size)
unfolding load_member find sizeof
ihl-load Endian.little p b = elim (Bool-cases (ltb Eth.size p.len)) [
  | inl inside ↦ rw inside (ap some (omega arith))
  | inr outside ↦ rw outside refl
]
ihl-load Endian.big p b = elim (Bool-cases (ltb Eth.size p.len)) [
  | inl inside ↦ rw inside (ap some (omega (arith, b 14)))
  | inr outside ↦ rw outside refl
]
