-- ===== src/Tests/DataPlane.antt =====
-- The theorems on kernelspace/xdp_lb.c at a ping and its reply, and the programs run on them.
use native.Mathlib.Omega.{arith}
use container_lb.Base.{
  ℕ, zero, suc, ◌+◌, ◌-◌, ◌*◌, ◌^◌, ◌≡◌, inr, refl, Bool, true, ◌&&◌, Option, none, some, List, [],
  ◌∷◌, ltb, ◌==◌, if◌then◌else◌,
}
use container_lb.Base.Lists.{length}
use container_lb.Types.{BackendInfo, LbConfig, StatsCounter, XdpAction, zero_mac}
use container_lb.Packet.{Packet, Endian}
use container_lb.Checksum.{sum_words, fold_csum, update_ip_csum}
use container_lb.Checksum.Rewrite.{IsBytes}
use container_lb.Checksum.Rfc1071.{IsRefreshed, update_ip_csum-IsRefreshed}
use container_lb.Checksum.ByteOrder.{update_ip_csum-byte_order}
use container_lb.Maps.{Maps}
use container_lb.Xdp.{
  Verdict, pass, count_packet, is_icmp, with_config, to_backend, dnat, to_vip, rewrite_macs,
  xdp_lb_ingress, xdp_veth_snat,
}
use container_lb.Xdp.Parse.{IsIcmp}
use container_lb.Xdp.Dnat.{IsMac, IsDnat}
use container_lb.Xdp.Safety.{Returns, xdp_lb_ingress-Returns}
use container_lb.Xdp.Ingress.{
  Selects, IsBackend, IsConfig, xdp_lb_ingress_passes, xdp_lb_ingress_forwards,
}
use container_lb.Xdp.Counters.{count_packet_lem}
use container_lb.Xdp.Snat.{
  Replies, IsSnat, xdp_veth_snat-Returns, xdp_veth_snat_rewrites, xdp_veth_snat_passes,
}
use container_lb.Tests.Machine.{machine, machine-IsKernel}

abbrev byte_of : List ℕ → ℕ → ℕ
byte_of [] i = 0
byte_of (x ∷ xs) zero = x
byte_of (x ∷ xs) (suc i) = byte_of xs i

abbrev frame : List ℕ → Packet
frame xs = record { len = length xs; byte = byte_of xs }

abbrev all_bytes : List ℕ → Bool
all_bytes [] = true
all_bytes (x ∷ xs) = ltb x 256 && all_bytes xs

frame-IsBytes : (xs : List ℕ) → all_bytes xs ≡ true → IsBytes (frame xs)
frame-IsBytes [] h i = omega arith
frame-IsBytes (x ∷ xs) h zero = ground arith
frame-IsBytes (x ∷ xs) h (suc i) = frame-IsBytes xs (ground arith) i

-- 172.18.0.4 pings 10.200.200.200: an echo request of 8 bytes behind a header of 20.
abbrev ping_bytes : List ℕ
ping_bytes =
    2 ∷ 66 ∷ 172 ∷ 18 ∷ 0 ∷ 1 ∷ 2 ∷ 66 ∷ 172 ∷ 18 ∷ 0 ∷ 4 ∷ 8 ∷ 0 ∷ 0x45 ∷ 0 ∷ 0 ∷ 28 ∷ 0 ∷ 1 ∷ 0
    ∷ 0 ∷ 64 ∷ 1 ∷ 0 ∷ 0 ∷ 172 ∷ 18 ∷ 0 ∷ 4 ∷ 10 ∷ 200 ∷ 200 ∷ 200 ∷ 8 ∷ 0 ∷ 0xf7 ∷ 0xfd ∷ 0 ∷ 1 ∷ 0
    ∷ 1 ∷ []

abbrev pub ping : Packet
ping = frame ping_bytes

pub ping-IsBytes : IsBytes ping
ping-IsBytes = frame-IsBytes ping_bytes refl

-- The reply of the backend 172.18.0.2.
abbrev reply_bytes : List ℕ
reply_bytes =
    2 ∷ 66 ∷ 172 ∷ 18 ∷ 0 ∷ 4 ∷ 2 ∷ 66 ∷ 172 ∷ 18 ∷ 0 ∷ 2 ∷ 8 ∷ 0 ∷ 0x45 ∷ 0 ∷ 0 ∷ 28 ∷ 0 ∷ 1 ∷ 0
    ∷ 0 ∷ 64 ∷ 1 ∷ 0x22 ∷ 0xb6 ∷ 172 ∷ 18 ∷ 0 ∷ 2 ∷ 172 ∷ 18 ∷ 0 ∷ 4 ∷ 0 ∷ 0 ∷ 0xff ∷ 0xfd ∷ 0 ∷ 1
    ∷ 0 ∷ 1 ∷ []

abbrev pub reply : Packet
reply = frame reply_bytes

pub reply-IsBytes : IsBytes reply
reply-IsBytes = frame-IsBytes reply_bytes refl

-- 10.200.200.200 and 172.18.0.2 as `__u32` in memory order.
abbrev vip : ℕ
vip = 10 + 256 * 200 + 65536 * 200 + 16777216 * 200

abbrev first_ip : ℕ
first_ip = 172 + 256 * 18 + 16777216 * 2

abbrev pub config : LbConfig
config = record {
  vip = vip;
  vport = 8080;
  backend_count = 2;
  src_mac = record { b0 = 2; b1 = 66; b2 = 172; b3 = 18; b4 = 0; b5 = 1 };
}

abbrev pub backend : BackendInfo
backend = record {
  ipv4 = first_ip;
  port = 80;
  mac = record { b0 = 2; b1 = 66; b2 = 172; b3 = 18; b4 = 0; b5 = 2 };
  weight = 1;
}

abbrev unused : BackendInfo
unused = record { ipv4 = 0; port = 0; mac = zero_mac; weight = 0 }

abbrev maps : Maps (ℕ → LbConfig) (ℕ → BackendInfo) (List (ℕ × ℕ)) (ℕ → ℕ → StatsCounter)
maps = record {
  config_map = λ i. config;
  backend_map = λ i. if i == 1 then backend else unused;
  backend_ips_map = (first_ip, 1) ∷ [];
  counters_map = λ cpu i. record { rx_packets = 5; rx_bytes = 2 ^ 64 - 2 };
}

pub backend-IsMac : IsMac backend.mac
backend-IsMac zero = omega arith
backend-IsMac (suc zero) = omega arith
backend-IsMac (suc (suc zero)) = omega arith
backend-IsMac (suc (suc (suc zero))) = omega arith
backend-IsMac (suc (suc (suc (suc zero)))) = omega arith
backend-IsMac (suc (suc (suc (suc (suc i))))) = omega arith

pub config-IsMac : IsMac config.src_mac
config-IsMac zero = omega arith
config-IsMac (suc zero) = omega arith
config-IsMac (suc (suc zero)) = omega arith
config-IsMac (suc (suc (suc zero))) = omega arith
config-IsMac (suc (suc (suc (suc zero)))) = omega arith
config-IsMac (suc (suc (suc (suc (suc i))))) = omega arith

backend-IsBackend : IsBackend backend
backend-IsBackend = record { mac = backend-IsMac; ipv4 = omega arith }

config-IsConfig : IsConfig config
config-IsConfig = record { src_mac = config-IsMac; vip = omega arith }

pub ping-IsIcmp : IsIcmp Endian.little ping
ping-IsIcmp = record {
  ip_inside = omega arith;
  ethertype_high = refl;
  ethertype_low = refl;
  protocol = refl;
  icmp_inside = omega arith;
}

pub reply-IsIcmp : IsIcmp Endian.little reply
reply-IsIcmp = record {
  ip_inside = omega arith;
  ethertype_high = refl;
  ethertype_low = refl;
  protocol = refl;
  icmp_inside = omega arith;
}

ping-Selects : Selects machine maps 7 ping config backend
ping-Selects = record {
  config = refl;
  active = omega arith;
  for_vip = inr refl;
  picked = refl;
  in_use = omega arith;
}

reply-Replies : Replies machine maps reply 1 config
reply-Replies = record { registered = refl; config = refl; has_vip = omega arith }

xdp_lb_ingress_forwards_example :
    (q : Packet) × (xdp_lb_ingress machine maps 1 7 ping
      ≡ some (record {
        action = XdpAction.xdp_pass;
        packet = q;
        counters = count_packet machine maps.counters_map 1 1 42;
      }))
    × IsDnat Endian.little config backend ping q
xdp_lb_ingress_forwards_example =
    xdp_lb_ingress_forwards machine maps 2 machine-IsKernel 1 7 ping config backend ping-IsBytes
      config-IsConfig backend-IsBackend ping-IsIcmp ping-Selects

-- The reply is addressed to its client, so the ingress program leaves it alone.
reply_not_selected : ¬ (
    IsIcmp Endian.little reply
    × ((cfg : LbConfig) × (b : BackendInfo) × Selects machine maps 7 reply cfg b))
reply_not_selected (icmp, (cfg, b, s)) = ground arith

xdp_lb_ingress_passes_example :
    xdp_lb_ingress machine maps 1 7 reply ≡ some (pass machine maps reply)
xdp_lb_ingress_passes_example =
    xdp_lb_ingress_passes machine maps 2 machine-IsKernel 1 7 reply reply-IsBytes reply_not_selected

xdp_lb_ingress-Returns_example : Returns ping (xdp_lb_ingress machine maps 1 7 ping)
xdp_lb_ingress-Returns_example = xdp_lb_ingress-Returns machine maps 1 7 ping

xdp_veth_snat_rewrites_example :
    (q : Packet) × (xdp_veth_snat machine maps reply ≡ some (pass machine maps q))
    × IsSnat Endian.little vip reply q
xdp_veth_snat_rewrites_example =
    xdp_veth_snat_rewrites machine maps reply reply-IsBytes 2 machine-IsKernel 1 config
      config-IsConfig reply-IsIcmp reply-Replies

-- The ping itself comes from no backend.
ping_not_registered : ¬ (
    IsIcmp Endian.little ping × ((idx : ℕ) × (cfg : LbConfig) × Replies machine maps ping idx cfg))
ping_not_registered (icmp, (idx, cfg, r)) = let e = r.registered in cc e

xdp_veth_snat_passes_example : xdp_veth_snat machine maps ping ≡ some (pass machine maps ping)
xdp_veth_snat_passes_example =
    xdp_veth_snat_passes machine maps ping ping-IsBytes 2 machine-IsKernel ping_not_registered

xdp_veth_snat-Returns_example : Returns reply (xdp_veth_snat machine maps reply)
xdp_veth_snat-Returns_example = xdp_veth_snat-Returns machine maps reply

update_ip_csum-IsRefreshed_example :
    (q : Packet) × (update_ip_csum Endian.big ping 14 ≡ some q) × IsRefreshed Endian.big ping 14 q
update_ip_csum-IsRefreshed_example =
    update_ip_csum-IsRefreshed Endian.big ping 14 ping-IsBytes (omega arith)

update_ip_csum-byte_order_example :
    update_ip_csum Endian.little ping 14 ≡ update_ip_csum Endian.big ping 14
update_ip_csum-byte_order_example = update_ip_csum-byte_order ping 14 ping-IsBytes (omega arith)

count_packet_lem_example :
    machine.counters.lookup (count_packet machine maps.counters_map 1 1 42) 1 1
    ≡ some (record { rx_packets = 6; rx_bytes = 40 })
count_packet_lem_example = count_packet_lem machine 2 machine-IsKernel maps.counters_map 1 1 42 1 1

-- The frames that leave, byte for byte.
abbrev bytes_from : ℕ → ℕ → (ℕ → ℕ) → List ℕ
bytes_from zero i f = []
bytes_from (suc n) i f = f i ∷ bytes_from n (i + 1) f

abbrev sent : {P : Type 0} → Option (Verdict P) → List ℕ
sent none = []
sent (some v) = bytes_from v.packet.len 0 v.packet.byte

forwarded_ping :
    sent (xdp_lb_ingress machine maps 1 7 ping)
    ≡ 2 ∷ 66 ∷ 172 ∷ 18 ∷ 0 ∷ 2 ∷ 2 ∷ 66 ∷ 172 ∷ 18 ∷ 0 ∷ 1 ∷ 8 ∷ 0 ∷ 0x45 ∷ 0 ∷ 0 ∷ 28 ∷ 0 ∷ 1 ∷ 0
      ∷ 0 ∷ 64 ∷ 1 ∷ 0x22 ∷ 0xb6 ∷ 172 ∷ 18 ∷ 0 ∷ 4 ∷ 172 ∷ 18 ∷ 0 ∷ 2 ∷ 8 ∷ 0 ∷ 0xf7 ∷ 0xfd ∷ 0 ∷ 1
      ∷ 0 ∷ 1 ∷ []
unfolding xdp_lb_ingress is_icmp with_config to_backend dnat rewrite_macs update_ip_csum sum_words
    fold_csum
forwarded_ping = refl

-- The reply leaves with the VIP as its source.
rewritten_reply :
    sent (xdp_veth_snat machine maps reply)
    ≡ 2 ∷ 66 ∷ 172 ∷ 18 ∷ 0 ∷ 4 ∷ 2 ∷ 66 ∷ 172 ∷ 18 ∷ 0 ∷ 2 ∷ 8 ∷ 0 ∷ 0x45 ∷ 0 ∷ 0 ∷ 28 ∷ 0 ∷ 1 ∷ 0
      ∷ 0 ∷ 64 ∷ 1 ∷ 0xfb ∷ 0x39 ∷ 10 ∷ 200 ∷ 200 ∷ 200 ∷ 172 ∷ 18 ∷ 0 ∷ 4 ∷ 0 ∷ 0 ∷ 0xff ∷ 0xfd ∷ 0
      ∷ 1 ∷ 0 ∷ 1 ∷ []
unfolding xdp_veth_snat is_icmp to_vip update_ip_csum sum_words fold_csum
rewritten_reply = refl
