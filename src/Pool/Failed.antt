-- ===== src/Pool/Failed.antt =====
-- What a `Sync` of userspace/discovery/pool.go that returns an error leaves behind.
use container_lb.Base.{ℕ, ◌≡◌, ◌∙◌, ap, refl, Option, none, some, List, []}
use container_lb.Base.Lists.{length, drop}
use container_lb.Maps.{Kernel, Maps}
use container_lb.Maps.Laws.{IsKernel}
use container_lb.Go.Action.{Error, Action, ◌>>◌, >>_failed, wrap}
use container_lb.Go.Dict.{Dict}
use container_lb.Manager.{Manager, LinkApi, update_config}
use container_lb.Manager.Settings.{settings, update_backend_kept, clear_backend_kept}
use container_lb.Manager.Maps.{update_config_total}
use container_lb.Manager.Links.{attach_veth_xdp_maps, detach_veth_xdp_maps}
use container_lb.Pool.{
  Backend, Pool, Progress, u32, on_bpf, finish, index_by_veth, write_backends, clear_stale,
  detach_old, sync_maps, sync,
}
use container_lb.Pool.Updater.{manager_updater}
use container_lb.Pool.Preserves.{IsInvariant, Any, AllGiven-Any, loops-Preserves}

abbrev progress_settings : {C B H P L W : Type 0} → Progress (Manager C B H P L W) → C × P
progress_settings p = settings p.bpf

abbrev maps_settings : {C B H P : Type 0} → Maps C B H P → C × P
maps_settings m = (m.config_map, m.counters_map)

module _ {C B H P L W : Type 0} (k : Kernel C B H P) (api : LinkApi L W) where
  settings-IsInvariant :
      (m : Manager C B H P L W)
      → IsInvariant (manager_updater k api) Any (λ s. settings s ≡ settings m)
  settings-IsInvariant m = record {
    update_backend = λ index ip port mac s.
        λ h. ap (λ x. (x.0, x.1)) (update_backend_kept k index ip port mac s) ∙ h;
    clear_backend = λ index ip s. λ h. ap (λ x. (x.0, x.1)) (clear_backend_kept k index ip s) ∙ h;
    attach_veth_xdp =
        λ name ifindex s. λ given h. ap maps_settings (attach_veth_xdp_maps api name ifindex s) ∙ h;
    detach_veth_xdp = λ name s. λ h. ap maps_settings (detach_veth_xdp_maps api name s) ∙ h;
  }

  -- What a run that returns an error leaves as it was.
  pub record IsUnpublished (pool pool' : Pool (Manager C B H P L W)) : Type 0 where
    pub config : pool'.bpf.maps.config_map ≡ pool.bpf.maps.config_map
    pub counters : pool'.bpf.maps.counters_map ≡ pool.bpf.maps.counters_map
    pub backends : pool'.backends ≡ pool.backends

  finish_failed :
      (pool : Pool (Manager C B H P L W)) (new : List Backend)
      (r : Option Error × Progress (Manager C B H P L W)) (e : Error)
      → (finish (manager_updater k api) pool new r).0 ≡ some e
      → ((x : Error) → r.0 ≡ some x → progress_settings r.1 ≡ settings pool.bpf)
      → IsUnpublished pool (finish (manager_updater k api) pool new r).1
  finish_failed pool new (none, p) e h kept = absurd (cc h)
  finish_failed pool new (some x, p) e h kept = record {
    config = ap (λ s. s.0) (kept x refl);
    counters = ap (λ s. s.1) (kept x refl);
    backends = refl;
  }

  module _ (cpus : ℕ) (laws : IsKernel k cpus) where
    -- A `Sync` that returns an error, wherever it stopped, has not published the new list: the
    -- configuration, with the number of backends that the programs choose from, is the one before,
    -- and so are the counters and the list of the pool.
    pub sync-IsUnpublished :
        (pool : Pool (Manager C B H P L W)) (range_order : Dict Backend → Dict Backend)
        (new : List Backend) (e : Error)
        → (sync (manager_updater k api) range_order new pool).0 ≡ some e
        → IsUnpublished pool (sync (manager_updater k api) range_order new pool).1
    unfolding sync sync_maps
    sync-IsUnpublished pool range_order new e h =
        let u = manager_updater k api in
        let start : Progress (Manager C B H P L W) = record {
          bpf = pool.bpf;
          by_veth = pool.by_veth;
          old_by_veth = index_by_veth pool.backends [];
        } in
        let loops =
          write_backends u pool.backends 0 new
          >> clear_stale u (length new) (drop (length new) pool.backends)
          >> (λ p. detach_old u (range_order p.old_by_veth) p) in
        let configure : Action (Progress (Manager C B H P L W)) =
          wrap Error.update_config
            (on_bpf u (update_config k pool.vip pool.vport (u32 (length new)) pool.src_mac)) in
        let (c, done, stored) =
          update_config_total k cpus laws pool.vip pool.vport (u32 (length new)) pool.src_mac
            (loops start).1.bpf in
        finish_failed pool new ((loops >> configure) start) e h (λ x failed.
          ap progress_settings (>>_failed loops configure start x (rw done) failed)
          ∙ loops-Preserves u Any (λ m. settings m ≡ settings pool.bpf)
              (settings-IsInvariant pool.bpf) pool.backends new range_order (AllGiven-Any new) start
              refl)
