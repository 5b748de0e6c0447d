-- ===== src/Xdp/Safety.antt =====
-- The accesses of `xdp_lb_ingress` in kernelspace/xdp_lb.c to the frame.
use container_lb.Base.{
  ℕ, ◌%◌, ◌≤◌, ◌≡◌, refl, ◌&&◌, if_both, true, false, not, Option, none, some, ◌==◌, arith,
  if◌then◌else◌,
}
use container_lb.Types.{BackendInfo, LbConfig, XdpAction}
use container_lb.Packet.{Packet, u32_at}
use container_lb.Maps.{Kernel, Maps}
use container_lb.Xdp.{Verdict, is_icmp, pass, count_packet, to_backend, with_config, xdp_lb_ingress}
use container_lb.Xdp.Parse.{is_icmp_total, is_icmp_room}
use container_lb.Xdp.Dnat.{load32-eq, dnat_total}

-- A return of XDP_PASS with a frame of the same length.
abbrev pub Returns : {P : Type 0} → Packet → Option (Verdict P) → Type 0
Returns {P} p r =
    (v : Verdict P) × (r ≡ some v) × (v.action ≡ XdpAction.xdp_pass) × (v.packet.len ≡ p.len)

module _ {C B H P : Type 0} (k : Kernel C B H P) (m : Maps C B H P) where
  pub pass-Returns : (p : Packet) → Returns p (some (pass k m p))
  pass-Returns p = (pass k m p, refl, refl, refl)

  to_backend-Returns :
      (cpu : ℕ) (cfg : LbConfig) (idx : ℕ) (p : Packet) (found : Option BackendInfo)
      → 34 ≤ p.len
      → Returns p (to_backend k m cpu cfg idx p found)
  unfolding to_backend
  to_backend-Returns cpu cfg idx p none room = pass-Returns p
  to_backend-Returns cpu cfg idx p (some backend) room =
      if_both (Returns p) (backend.ipv4 == 0) (pass-Returns p) (
        let (q, eq, len) = dnat_total k cfg backend p room in
        rw eq (
          record {
            action = XdpAction.xdp_pass;
            packet = q;
            counters = count_packet k m.counters_map cpu idx p.len;
          },
          refl,
          refl,
          len,
        ))

  with_config-Returns :
      (cpu rnd : ℕ) (p : Packet) (found : Option LbConfig)
      → 34 ≤ p.len
      → Returns p (with_config k m cpu rnd p found)
  unfolding with_config
  with_config-Returns cpu rnd p none room = pass-Returns p
  with_config-Returns cpu rnd p (some cfg) room =
      if_both (Returns p) (cfg.backend_count == 0) (pass-Returns p) (
        rw (load32-eq k.endian p 30 (omega arith)) (
          if_both (Returns p) (not (cfg.vip == 0) && not (daddr == cfg.vip)) (pass-Returns p)
            (to_backend-Returns cpu cfg idx p (k.backend.lookup m.backend_map idx) room)))
    where
      daddr : ℕ
      daddr = u32_at k.endian p 30

      idx : ℕ
      idx = rnd % cfg.backend_count

  -- `xdp_lb_ingress` returns XDP_PASS for every frame and whatever the maps hold: it reads and writes
  -- nothing outside of the frame, and never drops one.
  pub xdp_lb_ingress-Returns : (cpu rnd : ℕ) (p : Packet) → Returns p (xdp_lb_ingress k m cpu rnd p)
  unfolding xdp_lb_ingress
  xdp_lb_ingress-Returns cpu rnd p =
      let (b, eq) = is_icmp_total k.endian k.bpf_htons p in
      rw eq (
        (elim b
            as (λ c.
              is_icmp k.endian k.bpf_htons p ≡ some c
              → Returns p (
                  if not c
                  then some (pass k m p)
                  else with_config k m cpu rnd p (k.config.lookup m.config_map 0))) [
                    | true ↦ λ h.
                        with_config-Returns cpu rnd p (k.config.lookup m.config_map 0)
                          (is_icmp_room k.endian k.bpf_htons p h)
                    | false ↦ λ h. pass-Returns p
                  ])
          eq)
