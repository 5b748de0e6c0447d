-- ===== src/Packet.antt =====
-- Packet memory as the XDP programs of kernelspace/xdp_lb.c see it: the bytes from `data` to
-- `data_end`, read and written in the byte order of the machine.
use container_lb.Base.{
  ℕ, ◌+◌, ◌-◌, ◌*◌, ◌/◌, ◌%◌, ◌^◌, Option, none, some, ltb, ◌==◌, if◌then◌else◌,
}
use container_lb.Base.Monad.{◌>>=◌}

-- The two targets that the program is compiled for, bpfel and bpfeb.
pub data Endian : Type 0 where
  little big : Endian

-- `ctx->data` to `ctx->data_end`: `len` bytes. What `byte` gives from `len` on is not there.
pub record Packet : Type 0 where
  pub len : ℕ
  pub byte : ℕ → ℕ

-- Two bytes as a `__u16`, four as a `__u32`.
abbrev pub word16 : Endian → ℕ → ℕ → ℕ
word16 Endian.little a b = a + 256 * b
word16 Endian.big a b = 256 * a + b

abbrev pub word32 : Endian → ℕ → ℕ → ℕ → ℕ → ℕ
word32 Endian.little a b c d = a + 256 * b + 65536 * c + 16777216 * d
word32 Endian.big a b c d = 16777216 * a + 65536 * b + 256 * c + d

-- The byte of a `__u16` or a `__u32` that lies at offset `i`.
abbrev pub byte16 : Endian → ℕ → ℕ → ℕ
byte16 Endian.little v i = v / 256 ^ i % 256
byte16 Endian.big v i = v / 256 ^ (1 - i) % 256

abbrev pub byte32 : Endian → ℕ → ℕ → ℕ
byte32 Endian.little v i = v / 256 ^ i % 256
byte32 Endian.big v i = v / 256 ^ (3 - i) % 256

-- An access outside of the packet is undefined in C, and `none` here.
abbrev pub load8 : Packet → ℕ → Option ℕ
load8 p i = if ltb i p.len then some (p.byte i) else none

abbrev pub put8 : Packet → ℕ → ℕ → Packet
put8 p i v = record p { byte = λ j. if j == i then v else p.byte j }

abbrev pub store8 : Packet → ℕ → ℕ → Option Packet
store8 p i v = if ltb i p.len then some (put8 p i v) else none

abbrev pub load16 : Endian → Packet → ℕ → Option ℕ
load16 e p i = do a ← load8 p i; b ← load8 p (i + 1); some (word16 e a b)

abbrev pub load32 : Endian → Packet → ℕ → Option ℕ
load32 e p i = do
  a ← load8 p i
  b ← load8 p (i + 1)
  c ← load8 p (i + 2)
  d ← load8 p (i + 3)
  some (word32 e a b c d)

abbrev pub store16 : Endian → Packet → ℕ → ℕ → Option Packet
store16 e p i v = do q ← store8 p i (byte16 e v 0); store8 q (i + 1) (byte16 e v 1)

abbrev pub store32 : Endian → Packet → ℕ → ℕ → Option Packet
store32 e p i v = do
  q ← store8 p i (byte32 e v 0)
  q ← store8 q (i + 1) (byte32 e v 1)
  q ← store8 q (i + 2) (byte32 e v 2)
  store8 q (i + 3) (byte32 e v 3)

-- The `__u32` at offset `i` of a packet that reaches that far.
abbrev pub u32_at : Endian → Packet → ℕ → ℕ
u32_at e p i = word32 e (p.byte i) (p.byte (i + 1)) (p.byte (i + 2)) (p.byte (i + 3))
