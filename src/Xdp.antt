-- ===== src/Xdp.antt =====
-- The two programs of kernelspace/xdp_lb.c. A result of `none` is an access outside of the packet.
pub mod Parse
pub mod Dnat
pub mod Safety
pub mod Members
pub mod Ingress
pub mod Counters
pub mod Snat
use container_lb.Base.{
  ℕ, ◌+◌, ◌*◌, ◌%◌, ◌^◌, Bool, true, false, not, ◌&&◌, ◌||◌, Option, none, some, ltb, ◌==◌, zero,
  suc, if◌then◌else◌,
}
use container_lb.Base.Monad.{◌>>=◌}
use container_lb.Types.{
  EthAddr, mac_at, eth_alen, BackendInfo, LbConfig, StatsCounter, XdpAction, ipproto_icmp, eth_p_ip,
}
use container_lb.Headers.Eth
use container_lb.Headers.Ip
use container_lb.Headers.Icmp
use container_lb.Packet.{Packet, Endian, load8, load16, load32, store8, store32}
use container_lb.Maps.{Kernel, Maps}
use container_lb.Checksum.{update_ip_csum}

-- What a program leaves behind: its return code, the frame, and the counters map.
pub record Verdict (P : Type 0) : Type 0 where
  pub action : XdpAction
  pub packet : Packet
  pub counters : P

-- The tests that both programs begin with: an IPv4 frame with an ICMP header inside its bounds.
-- `eth` stands at offset 0, `ip` behind it, and `icmp` at `ip + ihl * 4`.
unfoldable pub is_icmp : Endian → (ℕ → ℕ) → Packet → Option Bool
is_icmp e bpf_htons p = if ltb p.len Eth.size then some false else do
  h_proto ← load16 e p Eth.h_proto
  if not (h_proto == bpf_htons eth_p_ip)
      then some false
      else if ltb p.len (Eth.size + Ip.size)
      then some false
      else do
        protocol ← load8 p (Eth.size + Ip.protocol)
        if not (protocol == ipproto_icmp) then some false else do
          first ← load8 p Eth.size
          some (not (ltb p.len (Eth.size + Ip.ihl e first * 4 + Icmp.size)))

-- The loop over the two addresses, with `left` rounds to go from `i` on.
unfoldable pub rewrite_macs : EthAddr → EthAddr → ℕ → ℕ → Packet → Option Packet
rewrite_macs mac src_mac zero i p = some p
rewrite_macs mac src_mac (suc left) i p = do
  q ← store8 p (Eth.h_dest + i) (mac_at mac i)
  q ← store8 q (Eth.h_source + i) (mac_at src_mac i)
  rewrite_macs mac src_mac left (i + 1) q

module _ {C B H P : Type 0} (k : Kernel C B H P) where
  -- A return of XDP_PASS with nothing changed.
  abbrev pub pass : Maps C B H P → Packet → Verdict P
  pass m p = record { action = XdpAction.xdp_pass; packet = p; counters = m.counters_map }

  -- The statistics of slot `idx` on this CPU, where the lookup finds the slot.
  unfoldable pub count_packet : P → ℕ → ℕ → ℕ → P
  count_packet counters cpu idx len = elim (k.counters.lookup counters cpu idx) [
    | none ↦ counters
    | some stats ↦ k.counters.write counters cpu idx (record {
      rx_packets = (stats.rx_packets + 1) % 2 ^ 64;
      rx_bytes = (stats.rx_bytes + len) % 2 ^ 64;
    })
  ]

  -- The rewrite of the frame for `backend`.
  unfoldable pub dnat : LbConfig → BackendInfo → Packet → Option Packet
  dnat cfg backend p = do
    q ← rewrite_macs backend.mac cfg.src_mac eth_alen 0 p
    q ← store32 k.endian q (Eth.size + Ip.daddr) backend.ipv4
    update_ip_csum k.endian q Eth.size

  -- From the lookup in `backend_map` on.
  unfoldable pub to_backend :
      Maps C B H P → ℕ → LbConfig → ℕ → Packet → Option BackendInfo → Option (Verdict P)
  to_backend m cpu cfg idx p none = some (pass m p)
  to_backend m cpu cfg idx p (some backend) = if backend.ipv4 == 0 then some (pass m p) else do
    q ← dnat cfg backend p
    some (record {
      action = XdpAction.xdp_pass;
      packet = q;
      counters = count_packet m.counters_map cpu idx p.len;
    })

  -- From the lookup in `config_map` on.
  unfoldable pub with_config : Maps C B H P → ℕ → ℕ → Packet → Option LbConfig → Option (Verdict P)
  with_config m cpu rnd p none = some (pass m p)
  with_config m cpu rnd p (some cfg) = if cfg.backend_count == 0 then some (pass m p) else do
    daddr ← load32 k.endian p (Eth.size + Ip.daddr)
    let idx = rnd % cfg.backend_count
    if not (cfg.vip == 0) && not (daddr == cfg.vip)
        then some (pass m p)
        else to_backend m cpu cfg idx p (k.backend.lookup m.backend_map idx)

  -- `rnd` is what `bpf_get_prandom_u32` gives.
  unfoldable pub xdp_lb_ingress : Maps C B H P → ℕ → ℕ → Packet → Option (Verdict P)
  xdp_lb_ingress m cpu rnd p = do
    icmp ← is_icmp k.endian k.bpf_htons p
    if not icmp then some (pass m p) else with_config m cpu rnd p (k.config.lookup m.config_map 0)

  -- From the reverse lookup on.
  unfoldable pub to_vip : Maps C B H P → Packet → Option LbConfig → Option (Verdict P)
  to_vip m p none = some (pass m p)
  to_vip m p (some cfg) = if cfg.vip == 0 then some (pass m p) else do
    q ← store32 k.endian p (Eth.size + Ip.saddr) cfg.vip
    q ← update_ip_csum k.endian q Eth.size
    some (pass m q)

  unfoldable pub xdp_veth_snat : Maps C B H P → Packet → Option (Verdict P)
  xdp_veth_snat m p = do
    icmp ← is_icmp k.endian k.bpf_htons p
    if not icmp then some (pass m p) else do
      saddr ← load32 k.endian p (Eth.size + Ip.saddr)
      elim (k.ips.lookup m.backend_ips_map saddr) [
        | none ↦ some (pass m p)
        | some idx ↦ to_vip m p (k.config.lookup m.config_map 0)
      ]
