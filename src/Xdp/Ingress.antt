-- ===== src/Xdp/Ingress.antt =====
-- `xdp_lb_ingress` of kernelspace/xdp_lb.c: which frames it rewrites, how, and what it counts.
use container_lb.Base.{
  ℕ, ◌%◌, ◌≤◌, ◌<◌, ◌≡◌, ◌≢◌, ◌∙◌, ◌⊎◌, inl, inr, refl, Bool, ◌&&◌, Bool-cases, true, false, not,
  Option, none, some, ◌==◌, arith, ==_iff, ne→==,
}
use native.Mathlib.Decide.{ℕ_discrete}
use container_lb.Types.{BackendInfo, LbConfig, XdpAction}
use container_lb.Packet.{Packet, u32_at}
use container_lb.Checksum.Rewrite.{IsBytes}
use container_lb.Maps.{Kernel, Maps}
use container_lb.Maps.Laws.{IsKernel}
use container_lb.Xdp.{is_icmp, pass, dnat, count_packet, to_backend, with_config, xdp_lb_ingress}
use container_lb.Xdp.Parse.{IsIcmp, is_icmp_total, is_icmp_room, is_icmp_iff}
use container_lb.Xdp.Dnat.{IsMac, IsDnat, load32-eq, dnat-IsDnat}

-- What the maps say about a frame: it is for the VIP, and the index that the random number picks
-- holds a backend.
pub record Selects {C B H P : Type 0} (k : Kernel C B H P) (m : Maps C B H P) (rnd : ℕ) (p : Packet)
    (cfg : LbConfig) (backend : BackendInfo) : Type 0 where
  pub config : k.config.lookup m.config_map 0 ≡ some cfg
  pub active : cfg.backend_count ≢ 0
  pub for_vip : (cfg.vip ≡ 0) ⊎ (u32_at k.endian p 30 ≡ cfg.vip)
  pub picked : k.backend.lookup m.backend_map (rnd % cfg.backend_count) ≡ some backend
  pub in_use : backend.ipv4 ≢ 0

-- The ranges of the fields that the programs write into a frame.
pub record IsBackend (b : BackendInfo) : Type 0 where
  pub mac : IsMac b.mac
  pub ipv4 : b.ipv4 < 4294967296

pub record IsConfig (cfg : LbConfig) : Type 0 where
  pub src_mac : IsMac cfg.src_mac
  pub vip : cfg.vip < 4294967296

-- The VIP filter of the program, as a test on numbers.
vip_filter :
    (vip daddr : ℕ) → (not (vip == 0) && not (daddr == vip)) ≡ false → (vip ≡ 0) ⊎ (daddr ≡ vip)
vip_filter vip daddr h = ground arith

vip_filter_off :
    (vip daddr : ℕ) → (vip ≡ 0) ⊎ (daddr ≡ vip) → (not (vip == 0) && not (daddr == vip)) ≡ false
vip_filter_off vip daddr h = ground arith

module _ {C B H P : Type 0} (k : Kernel C B H P) (m : Maps C B H P) where
  to_backend_passes :
      (cpu : ℕ) (cfg : LbConfig) (idx : ℕ) (p : Packet) (found : Option BackendInfo)
      → ((b : BackendInfo) → found ≡ some b → b.ipv4 ≡ 0)
      → to_backend k m cpu cfg idx p found ≡ some (pass k m p)
  unfolding to_backend
  to_backend_passes cpu cfg idx p none h = refl
  to_backend_passes cpu cfg idx p (some b) h = rw ((==_iff b.ipv4 0).1 (h b refl))

  with_config_passes :
      (cpu rnd : ℕ) (p : Packet)
      → 34 ≤ p.len
      → ¬ ((cfg : LbConfig) × (b : BackendInfo) × Selects k m rnd p cfg b)
      → with_config k m cpu rnd p (k.config.lookup m.config_map 0) ≡ some (pass k m p)
  with_config_passes cpu rnd p room h = go (k.config.lookup m.config_map 0) refl
    where
      unused :
          (cfg : LbConfig)
          → k.config.lookup m.config_map 0 ≡ some cfg
          → cfg.backend_count ≢ 0
          → (not (cfg.vip == 0) && not (u32_at k.endian p 30 == cfg.vip)) ≡ false
          → (b : BackendInfo) → k.backend.lookup m.backend_map (rnd % cfg.backend_count) ≡ some b
          → b.ipv4 ≡ 0
      unused cfg e active match b found = elim (ℕ_discrete b.ipv4 0) [
        | yes z ↦ z
        | no used ↦ absurd (
            h (
              cfg,
              b,
              record {
                config = e;
                active = active;
                for_vip = vip_filter cfg.vip (u32_at k.endian p 30) match;
                picked = found;
                in_use = used;
              },
            ))
      ]

      go :
          (found : Option LbConfig)
          → k.config.lookup m.config_map 0 ≡ found
          → with_config k m cpu rnd p found ≡ some (pass k m p)
      go none e = unfold with_config in refl
      go (some cfg) e = elim (ℕ_discrete cfg.backend_count 0) [
        | yes idle ↦ unfold with_config in rw ((==_iff cfg.backend_count 0).1 idle)
        | no active ↦
            unfold with_config in
            rw (ne→== cfg.backend_count 0 active, load32-eq k.endian p 30 (omega arith))
              (elim (Bool-cases (not (cfg.vip == 0) && not (u32_at k.endian p 30 == cfg.vip))) [
                | inl other ↦ rw other
                | inr match ↦ rw match (
                    to_backend_passes cpu cfg (rnd % cfg.backend_count) p
                      (k.backend.lookup m.backend_map (rnd % cfg.backend_count))
                      (λ b found. unused cfg e active match b found))
              ])
      ]

  -- A frame that is not ICMP over IPv4 for the VIP, or for which no backend is in use, passes
  -- `xdp_lb_ingress` unchanged, and the counters stay as they are.
  pub xdp_lb_ingress_passes :
      (cpus : ℕ)
      → IsKernel k cpus
      → (cpu rnd : ℕ) (p : Packet) → IsBytes p
      → ¬ (IsIcmp k.endian p × ((cfg : LbConfig) × (b : BackendInfo) × Selects k m rnd p cfg b))
      → xdp_lb_ingress k m cpu rnd p ≡ some (pass k m p)
  unfolding xdp_lb_ingress
  xdp_lb_ingress_passes cpus laws cpu rnd p bytes h = go (is_icmp_total k.endian k.bpf_htons p)
    where
      go :
          ((b : Bool) × (is_icmp k.endian k.bpf_htons p ≡ some b))
          → xdp_lb_ingress k m cpu rnd p ≡ some (pass k m p)
      go (false, eq) = rw eq
      go (true, eq) = rw eq (
          with_config_passes cpu rnd p (is_icmp_room k.endian k.bpf_htons p eq) (λ s. h (
            (is_icmp_iff k.endian k.bpf_htons p (laws.htons 8 0 (omega arith) (omega arith))
                  bytes).0
                eq,
            s,
          )))

  to_backend_forwards :
      (cpu : ℕ) (cfg : LbConfig) (idx : ℕ) (p q : Packet) (b : BackendInfo)
      → b.ipv4 ≢ 0
      → dnat k cfg b p ≡ some q
      → to_backend k m cpu cfg idx p (some b)
        ≡ some (record {
          action = XdpAction.xdp_pass;
          packet = q;
          counters = count_packet k m.counters_map cpu idx p.len;
        })
  unfolding to_backend
  to_backend_forwards cpu cfg idx p q b used eq = rw (ne→== b.ipv4 0 used, eq)

  with_config_forwards :
      (cpu rnd : ℕ) (p : Packet) (cfg : LbConfig) (b : BackendInfo)
      → 34 ≤ p.len
      → Selects k m rnd p cfg b
      → with_config k m cpu rnd p (k.config.lookup m.config_map 0)
        ≡ to_backend k m cpu cfg (rnd % cfg.backend_count) p (some b)
  unfolding with_config
  with_config_forwards cpu rnd p cfg b room s = rw (
    s.config,
    with_config,
    ne→== cfg.backend_count 0 s.active,
    load32-eq k.endian p 30 (omega arith),
    vip_filter_off cfg.vip (u32_at k.endian p 30) s.for_vip,
    s.picked,
  )

  -- An ICMP frame for the VIP is rewritten for the backend that the random number picks: it gets
  -- the two MAC addresses, the backend's address as its destination and a header checksum that
  -- verifies, and keeps every other byte. It is counted in the slot of that index on this CPU, and
  -- passes. The numbers in the maps are of the width of their fields.
  pub xdp_lb_ingress_forwards :
      (cpus : ℕ)
      → IsKernel k cpus
      → (cpu rnd : ℕ) (p : Packet) (cfg : LbConfig) (b : BackendInfo) → IsBytes p
      → IsConfig cfg
      → IsBackend b
      → IsIcmp k.endian p
      → Selects k m rnd p cfg b
      → (q : Packet) × (xdp_lb_ingress k m cpu rnd p
          ≡ some (record {
            action = XdpAction.xdp_pass;
            packet = q;
            counters = count_packet k m.counters_map cpu (rnd % cfg.backend_count) p.len;
          }))
        × IsDnat k.endian cfg b p q
  unfolding xdp_lb_ingress
  xdp_lb_ingress_forwards cpus laws cpu rnd p cfg b bytes wc wb icmp s =
      let (q, eq, spec) = dnat-IsDnat k cfg b p icmp.ip_inside bytes wb.mac wc.src_mac wb.ipv4 in
      (
        q,
        rw
            ((is_icmp_iff k.endian k.bpf_htons p (laws.htons 8 0 (omega arith) (omega arith))
                bytes).1
              icmp)
            (with_config_forwards cpu rnd p cfg b icmp.ip_inside s
              ∙ to_backend_forwards cpu cfg (rnd % cfg.backend_count) p q b s.in_use eq),
        spec,
      )
