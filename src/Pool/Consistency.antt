-- ===== src/Pool/Consistency.antt =====
-- A whole run of `Sync` of userspace/discovery/pool.go over the manager, and the maps it leaves.
use native.Mathlib.Nat.{zero-add}
use container_lb.Base.{
  ℕ, zero, suc, ◌<◌, ◌≡◌, ◌∙◌, ap, refl, ltb, Option, none, some, arith, List, [], ◌∷◌, map,
}
use container_lb.Base.Lists.{length, get_elem?, drop, length-drop}
use container_lb.Types.{BackendInfo}
use container_lb.Maps.{Kernel, Maps}
use container_lb.Maps.Laws.{IsKernel}
use container_lb.Go.Action.{Error, Action, ◌>>◌, >>_ok, wrap}
use container_lb.Go.Dict.{Dict}
use container_lb.Manager.{Manager, LinkApi, config_of, update_config}
use container_lb.Manager.Maps.{update_config_total}
use container_lb.Pool.{
  Backend, BpfUpdater, Pool, Progress, u32, on_bpf, finish, index_by_veth, write_backends,
  clear_stale, detach_old, sync_maps, sync,
}
use container_lb.Pool.Reverse.{rev_sync}
use container_lb.Pool.Updater.{manager_updater, key, Tables}
use container_lb.Pool.Rounds.{AreIpv4, fwd_write, rev_write, fwd_clear, rev_clear}
use container_lb.Pool.Loops.{write_backends_ok, clear_stale_ok}
use container_lb.Pool.Detach.{detach_old_maps}
use container_lb.Pool.Tables.{slot, fwd_loops, rev_sync-loops}

-- Where `Sync` returns no error, the pool takes the new list.
finish_ok :
    {S : Type 0} (u : BpfUpdater S) (pool : Pool S) (new : List Backend)
    (r : Option Error × Progress S)
    → (finish u pool new r).0 ≡ none
    → (r.0 ≡ none)
      × ((finish u pool new r).1
          ≡ record pool { bpf = r.1.bpf; by_veth = r.1.by_veth; backends = new })
finish_ok u pool new (none, p) h = (refl, refl)
finish_ok u pool new (some e, p) h = absurd (cc h)

AreIpv4-drop : (n : ℕ) (bs : List Backend) → AreIpv4 bs → AreIpv4 (drop n bs)
AreIpv4-drop zero bs h = h
AreIpv4-drop (suc n) [] h = tt
AreIpv4-drop (suc n) (b ∷ bs) h = AreIpv4-drop n bs h.1

module _ {C B H P L W : Type 0} (k : Kernel C B H P) (api : LinkApi L W) (cpus : ℕ)
    (laws : IsKernel k cpus) where
  -- What a run leaves where it returns no error: the entries of the new backends, empty entries
  -- where the old list was longer, and the rounds of `rev_sync` on the reverse map.
  pub record IsSynced (pool : Pool (Manager C B H P L W)) (new : List Backend)
      (pool' : Pool (Manager C B H P L W)) : Type 0 where
    pub ipv4 : AreIpv4 new
    pub backends : pool'.backends ≡ new
    pub same_counters : pool'.bpf.maps.counters_map ≡ pool.bpf.maps.counters_map
    pub config :
        k.config.lookup pool'.bpf.maps.config_map 0
        ≡ some (config_of k.endian pool.vip pool.vport (length new) pool.src_mac)
    pub forward :
        (j : ℕ)
        → k.backend.lookup pool'.bpf.maps.backend_map j
          ≡ slot k.endian
              (get_elem? new j)
              (ltb j (length pool.backends))
              (k.backend.lookup pool.bpf.maps.backend_map j)
    pub reverse :
        (x : ℕ)
        → k.ips.lookup pool'.bpf.maps.backend_ips_map x
          ≡ rev_sync
              (map (key k.endian) pool.backends)
              (map (key k.endian) new)
              0
              (k.ips.lookup pool.bpf.maps.backend_ips_map)
              x

  module _ (pool : Pool (Manager C B H P L W)) (new : List Backend) where
    abbrev old : List Backend
    old = pool.backends

    -- The tables after both loops, and after the whole run.
    abbrev fwd_end : ℕ → Option BackendInfo
    fwd_end =
        fwd_clear (length new) (drop (length new) old)
          (fwd_write k.endian 0 new (k.backend.lookup pool.bpf.maps.backend_map))

    abbrev rev_end : ℕ → Option ℕ
    rev_end =
        rev_clear k.endian (drop (length new) old)
          (rev_write k.endian old new 0 (k.ips.lookup pool.bpf.maps.backend_ips_map))

    module _ (v : AreIpv4 old) (hn : length new < 4294967296) (ho : length old < 4294967296) where
      -- The state after the loops over the tables.
      loops_ok :
          (p : Progress (Manager C B H P L W))
          → p.bpf ≡ pool.bpf
          → ((write_backends (manager_updater k api) old 0 new
                >> clear_stale (manager_updater k api) (length new) (drop (length new) old))
              p).0
            ≡ none
          → AreIpv4 new
            × Tables k pool.bpf.maps.config_map pool.bpf.maps.counters_map
                ((write_backends (manager_updater k api) old 0 new
                    >> clear_stale (manager_updater k api) (length new) (drop (length new) old))
                  p).1.bpf.maps
                fwd_end
                rev_end
      loops_ok p start h =
          let u = manager_updater k api in
          let c = pool.bpf.maps.config_map in
          let q = pool.bpf.maps.counters_map in
          let write = write_backends u old 0 new in
          let clear = clear_stale u (length new) (drop (length new) old) in
          let fwd = k.backend.lookup pool.bpf.maps.backend_map in
          let rev = k.ips.lookup pool.bpf.maps.backend_ips_map in
          let (hw, hc, e) = >>_ok write clear p h in
          let at_start : Tables k c q p.bpf.maps fwd rev = rw start (record {
            forward_is = λ j. refl;
            reverse_is = λ x. refl;
            config_is = refl;
            counters_is = refl;
          }) in
          let (vs, t) =
            write_backends_ok k api cpus laws c q old old new 0 p fwd rev at_start
              (λ j. ap (get_elem? old) (zero-add j)) v (omega arith) hw in
          (
            vs,
            rw e (
                clear_stale_ok k api cpus laws c q (length new) (drop (length new) old) (write p).1
                  (fwd_write k.endian 0 new fwd) (rev_write k.endian old new 0 rev) t
                  (omega (arith, length-drop (length new) old)) (AreIpv4-drop (length new) old v)
                  hc),
          )

      configure : Action (Progress (Manager C B H P L W))
      configure = wrap Error.update_config (
          on_bpf (manager_updater k api)
            (update_config k pool.vip pool.vport (u32 (length new)) pool.src_mac))

      configure_maps :
          (p : Progress (Manager C B H P L W))
          → (c : C) × ((configure p).1.bpf.maps ≡ record (p.bpf.maps) { config_map = c })
            × (k.config.lookup c 0
                ≡ some (config_of k.endian pool.vip pool.vport (length new) pool.src_mac))
      unfolding configure
      configure_maps p =
          let (c, e, stored) =
            update_config_total k cpus laws pool.vip pool.vport (u32 (length new)) pool.src_mac
              p.bpf in
          (
            c,
            rw e,
            stored
                ∙ ap (λ n. some (config_of k.endian pool.vip pool.vport n pool.src_mac))
                    (omega arith),
          )

      -- A `Sync` without an error, from IPv4 backends and with lists below 2^32, takes the new list,
      -- all of it IPv4. `backend_map` has its entries, empty ones where the old list was longer, and
      -- the old ones after both; `config_map` has its length, and the VIP; the counters stay; and
      -- `backend_ips_map` is what the rounds of `rev_sync` make of it, in any order of the iteration.
      pub sync-IsSynced :
          (range_order : Dict Backend → Dict Backend)
          → (sync (manager_updater k api) range_order new pool).0 ≡ none
          → IsSynced pool new (sync (manager_updater k api) range_order new pool).1
      unfolding sync sync_maps configure
      sync-IsSynced range_order h =
          let u = manager_updater k api in
          let start : Progress (Manager C B H P L W) = record {
            bpf = pool.bpf;
            by_veth = pool.by_veth;
            old_by_veth = index_by_veth old [];
          } in
          let loops =
            write_backends u old 0 new >> clear_stale u (length new) (drop (length new) old) in
          let detach : Action (Progress (Manager C B H P L W)) =
            λ p. detach_old u (range_order p.old_by_veth) p in
          let (hr, e) = finish_ok u pool new (sync_maps u range_order pool new start) h in
          let (hd, hc, ec) = >>_ok (loops >> detach) configure start hr in
          let (hl, hd', ed) = >>_ok loops detach start hd in
          let (vs, t) = loops_ok start refl hl in
          let (c, ce, stored) = configure_maps ((loops >> detach) start).1 in
          let kept =
            ap (λ (s : Progress (Manager C B H P L W)). s.bpf.maps) ed
            ∙ detach_old_maps k api (range_order (loops start).1.old_by_veth) (loops start).1 hd' in
          let maps_are =
            ap (λ (s : Pool (Manager C B H P L W)). s.bpf.maps) e
            ∙ ap (λ (s : Progress (Manager C B H P L W)). s.bpf.maps) ec
            ∙ ce
            ∙ ap (λ (m : Maps C B H P). record m { config_map = c }) kept in
          record {
            ipv4 = vs;
            backends = ap (λ (s : Pool (Manager C B H P L W)). s.backends) e;
            same_counters = ap (λ (m : Maps C B H P). m.counters_map) maps_are ∙ t.counters_is;
            config = ap (λ (m : Maps C B H P). k.config.lookup m.config_map 0) maps_are ∙ stored;
            forward = λ j.
                ap (λ (m : Maps C B H P). k.backend.lookup m.backend_map j) maps_are
                ∙ t.forward_is j
                ∙ fwd_loops k.endian old new (k.backend.lookup pool.bpf.maps.backend_map) j;
            reverse = λ x.
                ap (λ (m : Maps C B H P). k.ips.lookup m.backend_ips_map x) maps_are
                ∙ t.reverse_is x
                ∙ ap (λ f. f x)
                    (rev_sync-loops k.endian old new 0
                      (k.ips.lookup pool.bpf.maps.backend_ips_map));
          }
