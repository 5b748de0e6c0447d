-- ===== src/Xdp/Snat.antt =====
-- `xdp_veth_snat` of kernelspace/xdp_lb.c: which replies it rewrites and how.
use native.Mathlib.Decide.{ℕ_discrete}
use container_lb.Base.{
  ℕ, ◌+◌, ◌≤◌, ◌<◌, ◌≡◌, ◌≢◌, ◌↔◌, ◌∙◌, ap, ◌⊎◌, inl, inr, refl, Bool, if_both, Option-cases, true,
  false, Option, none, some, ◌==◌, arith, ==_iff, ne→==,
}
use container_lb.Types.{LbConfig}
use container_lb.Packet.{Packet, Endian, u32_at, load32}
use container_lb.Checksum.Rewrite.{IsBytes, update_ip_csum_total}
use container_lb.Checksum.Rfc1071.{
  Verifies, ones_sum, ones_sum-ext, IsRefreshed, update_ip_csum-IsRefreshed,
}
use container_lb.Maps.{Kernel, Maps}
use container_lb.Maps.Laws.{IsKernel}
use container_lb.Xdp.{is_icmp, pass, to_vip, xdp_veth_snat}
use container_lb.Xdp.Parse.{IsIcmp, is_icmp_total, is_icmp_room, is_icmp_iff}
use container_lb.Xdp.Dnat.{load32-eq, put32, store32-eq, word32-byte32, put32-IsBytes}
use container_lb.Xdp.Safety.{Returns, pass-Returns}
use container_lb.Xdp.Ingress.{IsConfig}

-- What the maps say about a reply: its source is a registered backend, and there is a VIP.
pub record Replies {C B H P : Type 0} (k : Kernel C B H P) (m : Maps C B H P) (p : Packet) (idx : ℕ)
    (cfg : LbConfig) : Type 0 where
  pub registered : k.ips.lookup m.backend_ips_map (u32_at k.endian p 26) ≡ some idx
  pub config : k.config.lookup m.config_map 0 ≡ some cfg
  pub has_vip : cfg.vip ≢ 0

-- `q` is the frame `p` with the source address `vip`.
pub record IsSnat (e : Endian) (vip : ℕ) (p q : Packet) : Type 0 where
  pub same_len : q.len ≡ p.len
  pub saddr : load32 e q 26 ≡ some vip
  pub verifies : Verifies e q 10 14
  pub verifies_options :
      (n : ℕ) → Verifies e q (10 + n) 14 ↔ ((ones_sum e p n 34 ≡ 0) ⊎ (ones_sum e p n 34 ≡ 65535))
  pub kept : (j : ℕ) → (j < 24) ⊎ (25 < j) → (j < 26) ⊎ (29 < j) → q.byte j ≡ p.byte j

module _ {C B H P : Type 0} (k : Kernel C B H P) (m : Maps C B H P) (p : Packet) where
  to_vip-Returns : (found : Option LbConfig) → 34 ≤ p.len → Returns p (to_vip k m p found)
  unfolding to_vip put32
  to_vip-Returns none room = pass-Returns k m p
  to_vip-Returns (some cfg) room = if_both (Returns p) (cfg.vip == 0) (pass-Returns k m p) (
      rw (store32-eq k.endian p 26 cfg.vip (omega arith)) (
        let (q, eq, len) = update_ip_csum_total k.endian (put32 k.endian p 26 cfg.vip) 14 room in
        rw eq (pass k m q, refl, refl, len)))

  found_backend-Returns :
      (found : Option ℕ)
      → 34 ≤ p.len
      → Returns p (elim found [
        | none ↦ some (pass k m p)
        | some idx ↦ to_vip k m p (k.config.lookup m.config_map 0)
      ])
  found_backend-Returns none room = pass-Returns k m p
  found_backend-Returns (some idx) room = to_vip-Returns (k.config.lookup m.config_map 0) room

  -- `xdp_veth_snat` returns XDP_PASS for every frame and whatever the maps hold: it reads and writes
  -- nothing outside of the frame.
  pub xdp_veth_snat-Returns : Returns p (xdp_veth_snat k m p)
  xdp_veth_snat-Returns = go (is_icmp_total k.endian k.bpf_htons p)
    where
      go :
          ((b : Bool) × (is_icmp k.endian k.bpf_htons p ≡ some b)) → Returns p (xdp_veth_snat k m p)
      go (false, eq) = unfold xdp_veth_snat in rw eq (pass-Returns k m p)
      go (true, eq) =
          let room = is_icmp_room k.endian k.bpf_htons p eq in
          unfold xdp_veth_snat in
          rw (eq, load32-eq k.endian p 26 (omega arith))
            (found_backend-Returns (k.ips.lookup m.backend_ips_map (u32_at k.endian p 26)) room)

  module _ (bytes : IsBytes p) where
    -- The rewrite of a reply.
    refreshed-IsSnat :
        (vip : ℕ) (q : Packet)
        → vip < 4294967296
        → 34 ≤ p.len
        → IsRefreshed k.endian (put32 k.endian p 26 vip) 14 q
        → IsSnat k.endian vip p q
    unfolding put32
    refreshed-IsSnat vip q hv room r = record {
      same_len = r.same_len;
      saddr =
          rw
            (
              load32-eq k.endian q 26 (rw r.same_len (omega arith)),
              r.kept 26 (omega arith),
              r.kept 27 (omega arith),
              r.kept 28 (omega arith),
              r.kept 29 (omega arith),
            )
            (ap some (word32-byte32 k.endian vip hv));
      verifies = r.verifies;
      verifies_options = λ n. rw (← options n) (r.verifies_options n);
      kept = λ j c d. r.kept j (omega arith) ∙ outside j d;
    }
      where
        outside : (j : ℕ) → (j < 26) ⊎ (29 < j) → (put32 k.endian p 26 vip).byte j ≡ p.byte j
        outside j d = ground arith

        options :
            (n : ℕ) → ones_sum k.endian (put32 k.endian p 26 vip) n 34 ≡ ones_sum k.endian p n 34
        options n =
            ones_sum-ext k.endian p (put32 k.endian p 26 vip) n 34 (λ j h. outside j (omega arith))

    module _ (cpus : ℕ) (laws : IsKernel k cpus) where
      header_test : (is_icmp k.endian k.bpf_htons p ≡ some true) ↔ IsIcmp k.endian p
      header_test =
          is_icmp_iff k.endian k.bpf_htons p (laws.htons 8 0 (omega arith) (omega arith)) bytes

      -- Where a VIP of 32 bits is set, an ICMP reply of a registered backend gets it as its source,
      -- with a header checksum that verifies, and keeps every other byte; it passes.
      pub xdp_veth_snat_rewrites :
          (idx : ℕ) (cfg : LbConfig)
          → IsConfig cfg
          → IsIcmp k.endian p
          → Replies k m p idx cfg
          → (q : Packet) × (xdp_veth_snat k m p ≡ some (pass k m q)) × IsSnat k.endian cfg.vip p q
      unfolding xdp_veth_snat to_vip
      xdp_veth_snat_rewrites idx cfg wc icmp r =
          let (q, eq, spec) =
            update_ip_csum-IsRefreshed k.endian (put32 k.endian p 26 cfg.vip) 14
              (put32-IsBytes k.endian p 26 cfg.vip bytes) (unfold put32 in icmp.ip_inside) in
          (
            q,
            rw (
              header_test.1 icmp,
              load32-eq k.endian p 26 (omega (arith, icmp.ip_inside)),
              r.registered,
              r.config,
              to_vip,
              ne→== cfg.vip 0 r.has_vip,
              store32-eq k.endian p 26 cfg.vip (omega (arith, icmp.ip_inside)),
              eq,
            ),
            refreshed-IsSnat cfg.vip q wc.vip icmp.ip_inside spec,
          )

      -- A frame that is not ICMP over IPv4, whose source is no registered backend, or that comes
      -- while no VIP is set passes `xdp_veth_snat` unchanged.
      pub xdp_veth_snat_passes :
          ¬ (IsIcmp k.endian p × ((idx : ℕ) × (cfg : LbConfig) × Replies k m p idx cfg))
          → xdp_veth_snat k m p ≡ some (pass k m p)
      xdp_veth_snat_passes h = is_icmp_case (is_icmp_total k.endian k.bpf_htons p)
        where
          vip_case :
              (cfg : LbConfig) (idx : ℕ)
              → IsIcmp k.endian p
              → k.ips.lookup m.backend_ips_map (u32_at k.endian p 26) ≡ some idx
              → k.config.lookup m.config_map 0 ≡ some cfg
              → to_vip k m p (some cfg) ≡ some (pass k m p)
          vip_case cfg idx icmp found config = elim (ℕ_discrete cfg.vip 0) [
            | yes z ↦ unfold to_vip in rw ((==_iff cfg.vip 0).1 z)
            | no set ↦ absurd (
                h (icmp, (idx, cfg, record { registered = found; config = config; has_vip = set })))
          ]

          config_case :
              (idx : ℕ)
              → IsIcmp k.endian p
              → k.ips.lookup m.backend_ips_map (u32_at k.endian p 26) ≡ some idx
              → to_vip k m p (k.config.lookup m.config_map 0) ≡ some (pass k m p)
          config_case idx icmp found = elim (Option-cases (k.config.lookup m.config_map 0)) [
            | inl missing ↦ rw missing (unfold to_vip in refl)
            | inr (cfg, config) ↦ rw config (vip_case cfg idx icmp found config)
          ]

          is_icmp_case :
              ((b : Bool) × (is_icmp k.endian k.bpf_htons p ≡ some b))
              → xdp_veth_snat k m p ≡ some (pass k m p)
          is_icmp_case (false, eq) = unfold xdp_veth_snat in rw eq
          is_icmp_case (true, eq) =
              let icmp = header_test.0 eq in
              let read = load32-eq k.endian p 26 (omega (arith, icmp.ip_inside)) in
              elim (Option-cases (k.ips.lookup m.backend_ips_map (u32_at k.endian p 26))) [
                | inl unknown ↦ unfold xdp_veth_snat in rw (eq, read, unknown)
                | inr (idx, found) ↦
                    unfold xdp_veth_snat in rw (eq, read, found) (config_case idx icmp found)
              ]
