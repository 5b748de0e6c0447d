-- ===== src/Pool/Attached/Origin.antt =====
-- The links through `Sync` of userspace/discovery/pool.go: they are those of `xdp_veth_snat` at the
-- interfaces of the names that they are kept under.
use Prim.Native.String.{String}
use container_lb.Base.{ℕ, ◌≡◌, ap, Option, List}
use container_lb.Maps.{Kernel}
use container_lb.Maps.Laws.{IsKernel}
use container_lb.Go.Action.{Error}
use container_lb.Go.Dict.{Dict}
use container_lb.Manager.{Manager, LinkApi}
use container_lb.Manager.Maps.{update_config_total}
use container_lb.Manager.Origin.{
  AreSnatLinks, Named, attach_veth_xdp-AreSnatLinks, detach_veth_xdp-AreSnatLinks,
}
use container_lb.Pool.{Backend, Pool, sync}
use container_lb.Pool.Updater.{manager_updater}
use container_lb.Pool.Attached.{update_backend_links, clear_backend_links}
use container_lb.Pool.Preserves.{IsInvariant, AllGiven, sync-Preserves}

module _ {C B H P L W : Type 0} (k : Kernel C B H P) (api : LinkApi L W)
    (name_index : String → ℕ) where
  moved :
      (m n : Manager C B H P L W)
      → n.veth_links ≡ m.veth_links
      → AreSnatLinks api name_index m
      → AreSnatLinks api name_index n
  moved m n e s = record { each = λ j l known. s.each j l (rw e at known) }

  calls-IsInvariant :
      IsInvariant (manager_updater k api) (Named name_index) (AreSnatLinks api name_index)
  calls-IsInvariant = record {
    update_backend =
        λ index ip port mac m. moved m _ (update_backend_links k api index ip port mac m);
    clear_backend = λ index ip m. moved m _ (clear_backend_links k api index ip m);
    attach_veth_xdp = attach_veth_xdp-AreSnatLinks api name_index;
    detach_veth_xdp = detach_veth_xdp-AreSnatLinks api name_index;
  }

  pub sync-AreSnatLinks :
      (cpus : ℕ)
      → IsKernel k cpus
      → (range_order : Dict Backend → Dict Backend) (new : List Backend)
        (pool : Pool (Manager C B H P L W))
      → AllGiven (Named name_index) new
      → AreSnatLinks api name_index pool.bpf
      → AreSnatLinks api name_index (sync (manager_updater k api) range_order new pool).1.bpf
  sync-AreSnatLinks cpus laws =
      sync-Preserves (manager_updater k api) (Named name_index) (AreSnatLinks api name_index)
        calls-IsInvariant
        (λ vip vport count src m.
          let (c, e, stored) = update_config_total k cpus laws vip vport count src m in
          moved m _ (ap (λ (r : Option Error × Manager C B H P L W). r.1.veth_links) e))
