-- ===== src/Pool/Attached/Sync.antt =====
-- The attachments after a whole run of `Sync` in userspace/discovery/pool.go.
use Prim.Native.String.{String}
use container_lb.Base.{ℕ, ◌≡◌, ◌≢◌, ap, refl, true, Option, none, some, List, []}
use container_lb.Base.Lists.{length, get_elem?, drop}
use container_lb.Maps.{Kernel}
use container_lb.Maps.Laws.{IsKernel}
use container_lb.Go.Action.{Error, Action, ◌>>◌, >>_ok, >>_invariant, wrap}
use container_lb.Go.Dict.{Dict, lookup}
use container_lb.Manager.{Manager, LinkApi, update_config}
use container_lb.Manager.Maps.{update_config_total}
use container_lb.Pool.{
  Backend, Pool, Progress, u32, on_bpf, is_attached, finish, index_by_veth, write_backends,
  clear_stale, detach_old, sync_maps, sync,
}
use container_lb.Pool.Updater.{manager_updater}
use container_lb.Pool.Attached.{AreLinked, Linked, IsQuiet, IsQuiet-Linked}
use container_lb.Pool.Attached.Loops.{
  write_backends-Linked, write_backends_attaches, clear_stale-Linked, clear_stale-Active,
  detach_old-Linked, detach_old-attached,
}

module _ {C B H P L W : Type 0} (k : Kernel C B H P) (api : LinkApi L W) where
  -- Every interface that the pool takes for attached has a link in the manager.
  abbrev pub IsLinked : Pool (Manager C B H P L W) → Type 0
  IsLinked pool = AreLinked k api pool.by_veth pool.bpf.veth_links

  finish-IsLinked :
      (pool : Pool (Manager C B H P L W)) (new : List Backend)
      (r : Option Error × Progress (Manager C B H P L W))
      → Linked k api r.1
      → IsLinked (finish (manager_updater k api) pool new r).1
  finish-IsLinked pool new (none, p) h = h
  finish-IsLinked pool new (some e, p) h = h

  finish_links :
      (pool : Pool (Manager C B H P L W)) (new : List Backend)
      (r : Option Error × Progress (Manager C B H P L W))
      → (finish (manager_updater k api) pool new r).0 ≡ none
      → (r.0 ≡ none) × ((finish (manager_updater k api) pool new r).1.bpf ≡ r.1.bpf)
  finish_links pool new (none, p) h = (refl, refl)
  finish_links pool new (some e, p) h = absurd (cc h)

  module _ (cpus : ℕ) (laws : IsKernel k cpus) (pool : Pool (Manager C B H P L W))
      (range_order : Dict Backend → Dict Backend) (new : List Backend) where
    abbrev start : Progress (Manager C B H P L W)
    start = record {
      bpf = pool.bpf;
      by_veth = pool.by_veth;
      old_by_veth = index_by_veth pool.backends [];
    }

    abbrev write : Action (Progress (Manager C B H P L W))
    write = write_backends (manager_updater k api) pool.backends 0 new

    abbrev clear : Action (Progress (Manager C B H P L W))
    clear = clear_stale (manager_updater k api) (length new) (drop (length new) pool.backends)

    abbrev detach : Action (Progress (Manager C B H P L W))
    detach p = detach_old (manager_updater k api) (range_order p.old_by_veth) p

    abbrev configure : Action (Progress (Manager C B H P L W))
    configure = wrap Error.update_config (
        on_bpf (manager_updater k api)
          (update_config k pool.vip pool.vport (u32 (length new)) pool.src_mac))

    configure-IsQuiet : IsQuiet k api configure
    configure-IsQuiet p =
        let (c, e, stored) =
          update_config_total k cpus laws pool.vip pool.vport (u32 (length new)) pool.src_mac
            p.bpf in
        (refl, refl, ap (λ (r : Option Error × Manager C B H P L W). r.1.veth_links) e)

    run-Linked :
        (p : Progress (Manager C B H P L W))
        → Linked k api p
        → Linked k api ((write >> clear >> detach >> configure) p).1
    run-Linked =
        >>_invariant (Linked k api) (write >> clear >> detach) configure
          (>>_invariant (Linked k api) (write >> clear) detach
            (>>_invariant (Linked k api) write clear
              (write_backends-Linked k api pool.backends 0 new)
              (clear_stale-Linked k api (length new) (drop (length new) pool.backends)))
            (λ p. detach_old-Linked k api (range_order p.old_by_veth) p))
          (IsQuiet-Linked k api configure configure-IsQuiet)

    -- `Sync` keeps it so, with an error or without.
    pub sync-IsLinked :
        IsLinked pool → IsLinked (sync (manager_updater k api) range_order new pool).1
    unfolding sync sync_maps
    sync-IsLinked h =
        finish-IsLinked pool new ((write >> clear >> detach >> configure) start)
          (run-Linked start h)

    -- After a `Sync` without an error every interface of a new backend has its program, where the
    -- interfaces that the pool took for attached had theirs before. The iteration over the old
    -- backends meets no name that is not there.
    pub sync-attaches :
        ((d : Dict Backend) (name : String)
          → lookup name d ≡ none
          → lookup name (range_order d) ≡ none)
        → IsLinked pool
        → (sync (manager_updater k api) range_order new pool).0 ≡ none
        → (j : ℕ) (b : Backend) → get_elem? new j ≡ some b
        → lookup b.veth_name (sync (manager_updater k api) range_order new pool).1.bpf.veth_links
          ≢ none
    unfolding sync sync_maps
    sync-attaches no_more linked h j b at =
        let (hr, e) = finish_links pool new ((write >> clear >> detach >> configure) start) h in
        let (hd, hc, ec) = >>_ok (write >> clear >> detach) configure start hr in
        let (hl, hd', ed) = >>_ok (write >> clear) detach start hd in
        let (hw, hs, es) = >>_ok write clear start hl in
        let active =
          clear_stale-Active k api (length new) (drop (length new) pool.backends) b.veth_name
            (write start).1 (write_backends_attaches k api pool.backends 0 new start hw j b at) in
        let p = (clear (write start).1).1 in
        let kept =
          detach_old-attached k api (range_order p.old_by_veth) b.veth_name
            (no_more p.old_by_veth b.veth_name active.1) p active.0 in
        let known : is_attached (manager_updater k api) b.veth_name
              ((write >> clear >> detach >> configure) start).1.by_veth
            ≡ true =
          rw (ec, ed, es) kept in
        rw e (run-Linked start linked b.veth_name known)
