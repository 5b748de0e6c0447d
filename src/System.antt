-- ===== src/System.antt =====
-- The control plane and the data plane together: what the programs of kernelspace/xdp_lb.c do with
-- the maps that a run of `Sync` in userspace/discovery/pool.go has left.
use container_lb.Base.{
  ℕ, suc, ◌%◌, ◌<◌, ◌≤◌, ◌≡◌, ◌≢◌, ◌∙◌, sym, ap, inr, refl, arith, none, some, List,
}
use container_lb.Base.Lists.{length, get_elem?}
use container_lb.Packet.{Packet, u32_at}
use container_lb.Types.{LbConfig, XdpAction}
use container_lb.Checksum.Rewrite.{IsBytes}
use container_lb.Maps.{Kernel}
use container_lb.Maps.Laws.{IsKernel}
use container_lb.Xdp.{pass, count_packet, xdp_lb_ingress, xdp_veth_snat}
use container_lb.Xdp.Parse.{IsIcmp}
use container_lb.Xdp.Dnat.{IsDnat}
use container_lb.Xdp.Ingress.{IsBackend, IsConfig, xdp_lb_ingress_forwards}
use container_lb.Xdp.Snat.{IsSnat, xdp_veth_snat_rewrites, xdp_veth_snat_passes}
use container_lb.Go.Dict.{Dict}
use container_lb.Manager.{Manager, LinkApi, config_of}
use container_lb.Pool.{Backend, Pool, sync}
use container_lb.Pool.Reverse.{IsAbsent, IsDistinct}
use container_lb.Pool.ReverseMap.{keys, key_at, sync-reverse_found, sync-reverse_lost}
use container_lb.Pool.Updater.{manager_updater, entry, key}
use container_lb.Pool.Consistency.{IsSynced, sync-IsSynced}
use container_lb.Pool.Invariant.{IsBounded}

module _ {C B H P L W : Type 0} (k : Kernel C B H P) (api : LinkApi L W) (cpus : ℕ)
    (laws : IsKernel k cpus) (pool : Pool (Manager C B H P L W)) (c : IsBounded pool)
    (range_order : Dict Backend → Dict Backend) (new : List Backend) (hn : length new < 4294967296)
    (h : (sync (manager_updater k api) range_order new pool).0 ≡ none) where
  abbrev after : Pool (Manager C B H P L W)
  after = (sync (manager_updater k api) range_order new pool).1

  abbrev new_config : LbConfig
  new_config = config_of k.endian pool.vip pool.vport (length new) pool.src_mac

  small_old : length pool.backends < 4294967296
  small_old = omega (arith, c.fits)

  synced : IsSynced k api cpus laws pool new after
  synced = sync-IsSynced k api cpus laws pool new c.ipv4 hn small_old range_order h

  -- After a `Sync` without an error of a pool whose backends are IPv4 and fit into `backend_map`,
  -- with fewer than 2^32 new backends, an ICMP frame for the VIP goes to the backend of the new list that the random number picks, with its
  -- addresses and header rewritten, and is counted there. The address of that backend is not
  -- 0.0.0.0, and the numbers in the maps are of the width of their fields.
  pub sync-forwards :
      (cpu rnd : ℕ) (p : Packet) (b : Backend)
      → get_elem? new (rnd % length new) ≡ some b
      → length new ≢ 0
      → IsBytes p
      → IsIcmp k.endian p
      → IsConfig new_config
      → (u32_at k.endian p 30 ≡ new_config.vip)
      → IsBackend (entry k.endian b)
      → (entry k.endian b).ipv4 ≢ 0
      → (q : Packet) × (xdp_lb_ingress k after.bpf.maps cpu rnd p
          ≡ some (record {
            action = XdpAction.xdp_pass;
            packet = q;
            counters = count_packet k pool.bpf.maps.counters_map cpu (rnd % length new) p.len;
          }))
        × IsDnat k.endian new_config (entry k.endian b) p q
  unfolding config_of
  sync-forwards cpu rnd p b at some_backend bytes icmp wc vip wb used =
      let (q, e, dnat) =
        xdp_lb_ingress_forwards k after.bpf.maps cpus laws cpu rnd p new_config (entry k.endian b)
          bytes wc wb icmp
          (record {
            config = synced.config;
            active = some_backend;
            for_vip = inr vip;
            picked = synced.forward (rnd % length new) ∙ rw at refl;
            in_use = used;
          }) in
      (
        q,
        e
            ∙ ap
                (λ counters. some (record {
                  action = XdpAction.xdp_pass;
                  packet = q;
                  counters = count_packet k counters cpu (rnd % length new) p.len;
                }))
                synced.same_counters,
        dnat,
      )

  -- After a `Sync` without an error of a pool whose backends are IPv4 and fit into `backend_map`,
  -- an ICMP reply of the new backend at index
  -- `j` gets the VIP as its source, where one of 32 bits is set, and the backend's address stands
  -- at no higher index of the old or the new list.
  pub sync-rewrites :
      (p : Packet) (j : ℕ) (b : Backend)
      → get_elem? new j ≡ some b
      → IsAbsent (key k.endian b) (suc j) (keys k api pool.backends)
      → IsAbsent (key k.endian b) (suc j) (keys k api new)
      → IsBytes p
      → IsIcmp k.endian p
      → u32_at k.endian p 26 ≡ key k.endian b
      → IsConfig new_config
      → new_config.vip ≢ 0
      → (q : Packet) × (xdp_veth_snat k after.bpf.maps p ≡ some (pass k after.bpf.maps q))
        × IsSnat k.endian new_config.vip p q
  sync-rewrites p j b at old_above new_above bytes icmp from wc vip =
      xdp_veth_snat_rewrites k after.bpf.maps p bytes cpus laws j new_config wc icmp (record {
        registered = rw from (
            sync-reverse_found k api cpus laws pool c.ipv4 small_old range_order new hn h j b at
              old_above new_above);
        config = synced.config;
        has_vip = vip;
      })

  -- A backend that moves to a lower index is lost: after a `Sync` without an error of a pool whose
  -- backends are IPv4 and fit into `backend_map`, to distinct addresses, where the old list had the
  -- address of the new backend at index `j` at a higher index `d`, the frames with that address as
  -- their source pass without the VIP in them.
  pub sync-moved_passes :
      (p : Packet) (j d : ℕ) (a b : Backend)
      → get_elem? new j ≡ some b
      → get_elem? pool.backends d ≡ some a
      → key k.endian a ≡ key k.endian b
      → j < d
      → IsDistinct (keys k api new)
      → IsBytes p
      → u32_at k.endian p 26 ≡ key k.endian b
      → xdp_veth_snat k after.bpf.maps p ≡ some (pass k after.bpf.maps p)
  sync-moved_passes p j d a b at was same moved distinct bytes from =
      let lost =
        sync-reverse_lost k api cpus laws pool c.ipv4 small_old range_order new hn h d a was gone in
      xdp_veth_snat_passes k after.bpf.maps p bytes cpus laws
        (λ (icmp, (idx, cfg, r)). cc (lost, same, from, r.registered))
    where
      moved_up : {i : ℕ} → i ≡ j → d ≤ i → ⊥
      moved_up e le = omega arith

      gone : IsAbsent (key k.endian a) d (keys k api new)
      gone i le = λ e.
          moved_up (distinct (key k.endian a) i j e (key_at k api new j b at ∙ ap some (sym same)))
            le
