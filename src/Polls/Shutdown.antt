-- ===== src/Polls/Shutdown.antt =====
-- The daemon of userspace/cmd/main.go from `NewManager` to the deferred `Close`: what it attaches
-- it lets go.
use Prim.Native.String.{String}
use container_lb.Base.{ℕ, ◌≡◌, ◌⊎◌, inl, inr, none, List, []}
use container_lb.Maps.{Kernel}
use container_lb.Go.Dict.{Dict, lookup}
use container_lb.Go.Net.{Ip, HardwareAddr}
use container_lb.Manager.{Manager, LinkApi, Result, ok, err}
use container_lb.Manager.Lifecycle.{Loader, Loaded, running, new_manager, close}
use container_lb.Manager.Balance.{IsLawful, IsStarted, new_manager-IsStarted}
use container_lb.Manager.Closing.{
  Called, here, updated, cleared, configured, attached, detached, IsOwned, objects, bridge, veth,
  IsTracked, Called-IsTracked,
}
use container_lb.Manager.Closing
use container_lb.Manager.Release.{close_tracked}
use container_lb.Go.Resources.{IsOpened, IsWithin}
use container_lb.Pool.{Backend, Pool, new_pool}
use container_lb.Pool.Updater.{manager_updater}
use container_lb.Pool.Preserves.{IsInvariant, Any, AllGiven-Any, sync-Preserves}
use container_lb.Discovery.{System, Text, discover_backends}
use container_lb.Polls.{Daemon, polled, poll, Reached, started, ticked, changed, counted}

module _ {C B H P L W : Type 0} (k : Kernel C B H P) (api : LinkApi L W) where
  calls-IsInvariant :
      (m : Manager C B H P L W) → IsInvariant (manager_updater k api) Any (Called k api m)
  calls-IsInvariant m = record {
    update_backend = λ index ip port mac n r. updated index ip port mac r;
    clear_backend = λ index ip n r. cleared index ip r;
    attach_veth_xdp = λ name ifindex n given r. attached name ifindex r;
    detach_veth_xdp = λ name n r. detached name r;
  }

  module _ {D N R : Type 0} (text : Text) (sys : System D N R) (target_port : ℕ) where
    polled-Called :
        (m : Manager C B H P L W) (range_order : Dict Backend → Dict Backend)
        (r : Result (List Backend) × D) (pool : Pool (Manager C B H P L W))
        → Called k api m pool.bpf
        → Called k api m (polled k api text sys target_port range_order r pool).pool.bpf
    polled-Called m range_order (ok bs, w) pool c =
        sync-Preserves (manager_updater k api) Any (Called k api m) (calls-IsInvariant m)
          (λ vip vport count src n r. configured vip vport count src r) range_order bs pool
          (AllGiven-Any bs) c
    polled-Called m range_order (err e, w) pool c = c

    -- The manager of the daemon is in a state that calls have made.
    Reached-Called :
        {m : Manager C B H P L W} {vip : Ip} {src_mac : HardwareAddr}
        {d : Daemon (Manager C B H P L W) D}
        → Reached k api text sys target_port m vip src_mac d
        → Called k api m d.pool.bpf
    unfolding new_pool poll
    Reached-Called (started w) = here
    Reached-Called {m = m} (ticked {d = d} range_order r) =
        polled-Called m range_order (discover_backends text sys target_port d.system) d.pool
          (Reached-Called r)
    Reached-Called (changed w r) = Reached-Called r
    Reached-Called (counted q r) = Closing.counted q (Reached-Called r)

    Called-trans :
        {l m n : Manager C B H P L W} → Called k api l m → Called k api m n → Called k api l n
    Called-trans c here = c
    Called-trans c (updated index ip port mac r) = updated index ip port mac (Called-trans c r)
    Called-trans c (cleared index ip r) = cleared index ip (Called-trans c r)
    Called-trans c (configured vip vport count src r) =
        configured vip vport count src (Called-trans c r)
    Called-trans c (attached name ifindex r) = attached name ifindex (Called-trans c r)
    Called-trans c (detached name r) = detached name (Called-trans c r)
    Called-trans c (Closing.counted q r) = Closing.counted q (Called-trans c r)

    module _ {O : Type 0} (loader : Loader C B H P O W) (IsOpen : W → L ⊎ O → Type 0)
        (laws : IsLawful loader api IsOpen) where
      started-IsTracked :
          (w u : W) (r : Loaded C B H P L O W) (l : L)
          → r.manager.veth_links ≡ []
          → IsOpened IsOpen (inr r.objs) w u
          → IsOpened IsOpen (inl l) u r.manager.world
          → IsTracked k loader api IsOpen laws w r.objs l r.manager
      started-IsTracked w u r l none_yet loaded linked = record {
        tracked = λ x up. elim (linked.only x up) [
          | inl e ↦ inr (rw e bridge)
          | inr before ↦ elim (loaded.only x before) [
            | inl e ↦ inr (rw e objects)
            | inr old ↦ inl old
          ]
        ];
      }

      -- The daemon leaves nothing attached: after a start, any polls, with errors among them, any
      -- calls of a `Sync` that the end of the daemon interrupts, and a `Close` that returns `nil`,
      -- every link and collection of objects that is open was open before. `lbObjects.Close`
      -- succeeds, and the iteration of `Close` meets the entries of the map. The attachments of a
      -- `Sync` that goes on after `Close` are not among them.
      pub Reached-close :
          ((o : O) (w : W) → (loader.close_objects o w).0 ≡ none)
          → (name : String) (w : W) (r : Loaded C B H P L O W)
          → new_manager loader api name w ≡ running r
          → {vip : Ip} {src_mac : HardwareAddr} {d : Daemon (Manager C B H P L W) D}
          → Reached k api text sys target_port r.manager vip src_mac d
          → (m : Manager C B H P L W) → Called k api d.pool.bpf m
          → (range_order : Dict L → Dict L)
          → ((e : Dict L) (j : String) → lookup j (range_order e) ≡ lookup j e)
          → (close loader api range_order (record r { manager = m })).0 ≡ []
          → IsWithin IsOpen w (close loader api range_order (record r { manager = m })).1.world
      Reached-close closes name w r up reached m more range_order all h =
          let (none_yet, (l, u, linked, loaded, joined)) : IsStarted loader api IsOpen laws w
              (running r) =
            rw up at (new_manager-IsStarted loader api IsOpen laws closes name w) in
          record {
            only =
                close_tracked k loader api IsOpen laws w range_order (record r { manager = m }) l
                  all
                  (Called-IsTracked k loader api IsOpen laws w r.objs l
                    (Called-trans (Reached-Called reached) more)
                    (started-IsTracked w u r l none_yet loaded joined))
                  linked h;
          }
