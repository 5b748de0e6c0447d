-- ===== src/Headers/Ip.antt =====
-- `struct iphdr` of kernelspace/vmlinux.h.
use container_lb.Base.{ℕ, ◌/◌, ◌%◌}
use container_lb.Packet.{Endian}

abbrev pub size : ℕ
size = 20

-- The bit-field `ihl` is declared before `version`: it takes the low bits of the first byte where
-- the target is little endian, and the high bits where it is big endian.
abbrev pub ihl : Endian → ℕ → ℕ
ihl Endian.little first = first % 16
ihl Endian.big first = first / 16

abbrev pub protocol : ℕ
protocol = 9

abbrev pub check : ℕ
check = 10

abbrev pub saddr : ℕ
saddr = 12

abbrev pub daddr : ℕ
daddr = 16
