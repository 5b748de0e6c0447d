-- ===== src/Checksum.antt =====
-- `update_ip_csum` of kernelspace/xdp_lb.c.
pub mod Rewrite
pub mod Rfc1071
pub mod ByteOrder
use container_lb.Base.{ℕ, zero, suc, ◌+◌, ◌-◌, ◌*◌, ◌/◌, ◌%◌, ◌^◌, ◌<◌, Option, none, some}
use container_lb.Base.Monad.{◌>>=◌}
use container_lb.Packet.{Endian, Packet, load16, store16}

-- The loop over the header, with `left` words to go from `at` on; `csum` is a `__u32`.
unfoldable pub sum_words : Endian → Packet → ℕ → ℕ → ℕ → Option ℕ
sum_words e p zero at csum = some csum
sum_words e p (suc left) at csum = do
  w ← load16 e p at
  sum_words e p left (at + 2) ((csum + w) % 2 ^ 32)

-- The two folds, and the complement cut to 16 bits.
unfoldable pub fold_csum : ℕ → ℕ
fold_csum csum =
    let once = (csum / 2 ^ 16 + csum % 2 ^ 16) % 2 ^ 32 in
    let twice = (once + once / 2 ^ 16) % 2 ^ 32 in (2 ^ 32 - 1 - twice) % 2 ^ 16

-- `iph` is the offset of the header; `check` stands 10 bytes behind it.
unfoldable pub update_ip_csum : Endian → Packet → ℕ → Option Packet
update_ip_csum e p iph = do
  q ← store16 e p (iph + 10) 0
  csum ← sum_words e q (20 / 2) iph 0
  store16 e q (iph + 10) (fold_csum csum)
