-- ===== src/Vmlinux/Scalars.antt =====
-- The scalar types of kernelspace/vmlinux.h.
use container_lb.Layout.{Scalar}

abbrev pub u16 : Scalar
u16 = Scalar.unsigned_short

abbrev pub be16 : Scalar
be16 = u16

abbrev pub u8 : Scalar
u8 = Scalar.unsigned_char

abbrev pub u32 : Scalar
u32 = Scalar.unsigned_int

abbrev pub be32 : Scalar
be32 = u32

abbrev pub sum16 : Scalar
sum16 = u16

abbrev pub u64 : Scalar
u64 = Scalar.unsigned_long_long

abbrev pub s64 : Scalar
s64 = Scalar.long_long

abbrev pub ktime_t : Scalar
ktime_t = s64

abbrev pub netmem_ref : Scalar
netmem_ref = Scalar.unsigned_long

abbrev pub bool : Scalar
bool = Scalar.bool

abbrev pub s16 : Scalar
s16 = Scalar.short

abbrev pub s32 : Scalar
s32 = Scalar.int
