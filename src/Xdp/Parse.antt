-- ===== src/Xdp/Parse.antt =====
-- What the tests of kernelspace/xdp_lb.c accept, stated over the bytes of the frame.
use container_lb.Base.{ℕ, ◌+◌, ◌*◌, ◌≤◌, ◌≡◌, ◌↔◌, inl, inr, Bool, Option-cases, true, some, arith}
use container_lb.Types.{eth_p_ip}
use container_lb.Headers.Ip
use container_lb.Packet.{Packet, Endian, word16}
use container_lb.Checksum.Rewrite.{IsBytes}
use container_lb.Xdp.{is_icmp}

-- An IPv4 frame (EtherType 08 00) that carries ICMP, with its headers inside the frame.
pub record IsIcmp (e : Endian) (p : Packet) : Type 0 where
  pub ip_inside : 34 ≤ p.len
  pub ethertype_high : p.byte 12 ≡ 8
  pub ethertype_low : p.byte 13 ≡ 0
  pub protocol : p.byte 23 ≡ 1
  pub icmp_inside : 14 + Ip.ihl e (p.byte 14) * 4 + 8 ≤ p.len

module _ (e : Endian) (bpf_htons : ℕ → ℕ) (p : Packet) where
  -- No test reads outside of the frame.
  pub is_icmp_total : (b : Bool) × (is_icmp e bpf_htons p ≡ some b)
  is_icmp_total = elim (Option-cases (is_icmp e bpf_htons p)) [
    | inl fault ↦ absurd (unfold is_icmp in ground arith)
    | inr found ↦ found
  ]

  -- Only frames with both fixed headers pass.
  pub is_icmp_room : is_icmp e bpf_htons p ≡ some true → 34 ≤ p.len
  unfolding is_icmp
  is_icmp_room h = ground arith

  module _ (htons : bpf_htons eth_p_ip ≡ word16 e 8 0) (b : IsBytes p) where
    pub is_icmp_iff : (is_icmp e bpf_htons p ≡ some true) ↔ IsIcmp e p
    unfolding is_icmp
    is_icmp_iff = ground (arith, htons, b 12, b 13)
