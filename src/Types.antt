-- ===== src/Types.antt =====
-- The structures of kernelspace/types.h, which the two sides of the load balancer share, and the
-- declarations of kernelspace/vmlinux.h that the XDP programs use.
use container_lb.Base.{ℕ, zero, suc}

abbrev pub max_backends : ℕ
max_backends = 64

abbrev pub eth_alen : ℕ
eth_alen = 6

-- An array of ETH_ALEN bytes: its length is part of its type.
pub record EthAddr : Type 0 where
  pub b0 : ℕ
  pub b1 : ℕ
  pub b2 : ℕ
  pub b3 : ℕ
  pub b4 : ℕ
  pub b5 : ℕ

-- `mac[i]`; the loops that use it stay below ETH_ALEN.
abbrev pub mac_at : EthAddr → ℕ → ℕ
mac_at m zero = m.b0
mac_at m (suc zero) = m.b1
mac_at m (suc (suc zero)) = m.b2
mac_at m (suc (suc (suc zero))) = m.b3
mac_at m (suc (suc (suc (suc zero)))) = m.b4
mac_at m _ = m.b5

abbrev pub zero_mac : EthAddr
zero_mac = record { b0 = 0; b1 = 0; b2 = 0; b3 = 0; b4 = 0; b5 = 0 }

-- `struct backend_info`. No code reads its padding.
pub record BackendInfo : Type 0 where
  pub ipv4 : ℕ
  pub port : ℕ
  pub mac : EthAddr
  pub weight : ℕ

-- `struct lb_config`, likewise.
pub record LbConfig : Type 0 where
  pub vip : ℕ
  pub vport : ℕ
  pub backend_count : ℕ
  pub src_mac : EthAddr

-- `struct stats_counter`
pub record StatsCounter : Type 0 where
  pub rx_packets : ℕ
  pub rx_bytes : ℕ

-- `enum xdp_action`
pub data XdpAction : Type 0 where
  xdp_aborted xdp_drop xdp_pass xdp_tx xdp_redirect : XdpAction

abbrev pub ipproto_icmp : ℕ
ipproto_icmp = 1

abbrev pub eth_p_ip : ℕ
eth_p_ip = 0x0800
