-- ===== src/Checksum/ByteOrder.antt =====
-- RFC 1071 (B): the checksum does not depend on the byte order in which the words are summed, so
-- the two builds of `update_ip_csum` write the same bytes.
use mathlib.Core.Path.{ap₂}
use container_lb.Base.{
  ℕ, zero, suc, ◌+◌, ◌*◌, ◌/◌, ◌%◌, ◌≤◌, ◌<◌, ◌≡◌, ◌∙◌, sym, ap, some, arith, ◌↔◌,
}
use container_lb.Packet.{Endian, Packet, byte16, put8}
use container_lb.Checksum.{fold_csum, update_ip_csum}
use container_lb.Checksum.Rewrite.{words_sum, IsBytes, cleared, put16-IsBytes, update_ip_csum_lem}
use container_lb.Checksum.Rfc1071.{words_sum-lt}

-- The words of one order are those of the other, turned round.
words_sum-turned :
    (p : Packet) (n at : ℕ)
    → (words_sum Endian.big p n at % 65535 ≡ 256 * words_sum Endian.little p n at % 65535)
      × ((words_sum Endian.big p n at ≡ 0) ↔ (words_sum Endian.little p n at ≡ 0))
unfolding words_sum
words_sum-turned p zero at = ground arith
words_sum-turned p (suc n) at = ground (arith, words_sum-turned p n (at + 2))

fold_csum_exact :
    (s : ℕ)
    → s < 655360
    → (fold_csum s < 65536) × ((fold_csum s + s) % 65535 ≡ 0) × ((fold_csum s ≡ 65535) ↔ (s ≡ 0))
unfolding fold_csum
fold_csum_exact s h = ground arith

fold_csum_turned :
    (s t : ℕ)
    → s < 655360
    → t < 655360
    → t % 65535 ≡ 256 * s % 65535
    → (t ≡ 0) ↔ (s ≡ 0)
    → fold_csum t ≡ 256 * (fold_csum s % 256) + fold_csum s / 256
fold_csum_turned s t hs ht e z = ground (arith, fold_csum_exact s hs, fold_csum_exact t ht)

-- The little-endian and the big-endian build of `update_ip_csum` turn a packet into the same packet.
pub update_ip_csum-byte_order :
    (p : Packet) (iph : ℕ)
    → IsBytes p
    → iph + 20 ≤ p.len
    → update_ip_csum Endian.little p iph ≡ update_ip_csum Endian.big p iph
update_ip_csum-byte_order p iph b h =
    update_ip_csum_lem Endian.little p iph b h
    ∙ ap some (ap₂ (λ x y. put8 (put8 q (iph + 10) x) (iph + 10 + 1) y) low high)
    ∙ sym (update_ip_csum_lem Endian.big p iph b h)
  where
    q : Packet
    q = cleared Endian.little p iph

    s : ℕ
    s = words_sum Endian.little q 10 iph

    t : ℕ
    t = words_sum Endian.big q 10 iph

    turned : fold_csum t ≡ 256 * (fold_csum s % 256) + fold_csum s / 256
    turned =
        let bytes = put16-IsBytes Endian.little p (iph + 10) 0 b in
        let same = words_sum-turned q 10 iph in
        fold_csum_turned s t (omega (arith, words_sum-lt Endian.little q 10 iph bytes))
          (omega (arith, words_sum-lt Endian.big q 10 iph bytes)) same.0 same.1

    small : fold_csum s < 65536
    small = unfold fold_csum in omega arith

    low : byte16 Endian.little (fold_csum s) 0 ≡ byte16 Endian.big (fold_csum t) 0
    low = omega (arith, turned, small)

    high : byte16 Endian.little (fold_csum s) 1 ≡ byte16 Endian.big (fold_csum t) 1
    high = omega (arith, turned, small)
