-- ===== src/Manager/Balance.antt =====
-- What `NewManager` of userspace/bpf/loader.go leaves open in the kernel: the loaded objects and the
-- links to interfaces.
use Prim.Native.String.{String}
use container_lb.Base.{ℕ, ◌≡◌, ◌⊎◌, inl, inr, refl, Option, none, some, []}
use container_lb.Maps.{Maps}
use container_lb.Go.Action.{Error}
use container_lb.Go.Resources.{
  IsSame, IsOpened, IsClosed, Opens, Closes, Opens-after, IsSame-trans, bracket,
}
use container_lb.Manager.{Program, XdpFlags, LinkApi, Result, ok, err}
use container_lb.Manager.Lifecycle.{
  Loader, Startup, running, refused, generic_tried, driver_tried, objects_loaded, interface_found,
  memlock_removed, new_manager,
}

-- `IsOpen` tells which links and collections of objects are open: `AttachXDP` and `loadLbObjects`
-- open what they return, which was not open before; after a `Close` without an error the one it was
-- called on is not open; and nothing else is opened or closed.
pub record IsLawful {C B H P L O W : Type 0} (loader : Loader C B H P O W) (api : LinkApi L W)
    (IsOpen : W → L ⊎ O → Type 0) : Type 0 where
  pub remove_memlock : (w : W) → IsSame IsOpen w (loader.remove_memlock w).1
  pub interface_by_name :
      (name : String) (w : W) → IsSame IsOpen w (loader.interface_by_name name w).1
  pub load_objects :
      (w : W)
      → Opens IsOpen
          (λ (x : O × Maps C B H P). inr x.0)
          (loader.load_objects w).0
          w
          (loader.load_objects w).1
  pub close_objects :
      (o : O) (w : W)
      → Closes IsOpen (loader.close_objects o w).0 (inr o) w (loader.close_objects o w).1
  pub attach_xdp :
      (program : Program) (ifindex : ℕ) (flags : XdpFlags) (w : W)
      → Opens IsOpen inl
          (api.attach_xdp program ifindex flags w).0
          w
          (api.attach_xdp program ifindex flags w).1
  pub close : (l : L) (w : W) → Closes IsOpen (api.close l w).0 (inl l) w (api.close l w).1

module _ {C B H P L O W : Type 0} (loader : Loader C B H P O W) (api : LinkApi L W)
    (IsOpen : W → L ⊎ O → Type 0) (laws : IsLawful loader api IsOpen) where
  -- What `NewManager` leaves, from the state `w`.
  abbrev pub IsStarted : W → Startup C B H P L O W → Type 0
  IsStarted w (running r) =
      (r.manager.veth_links ≡ [])
      × ((l : L) × (u : W) × (r.xdp_link ≡ some l)
          × IsOpened IsOpen (inr r.objs) w u
          × IsOpened IsOpen (inl l) u r.manager.world)
  IsStarted w (refused e w') = IsSame IsOpen w w'

  module _ (closes : (o : O) (w : W) → (loader.close_objects o w).0 ≡ none) where
    closed : (o : O) (w : W) → IsClosed IsOpen (inr o) w (loader.close_objects o w).1
    closed o w = rw (closes o w) at (laws.close_objects o w)

    generic_tried-IsStarted :
        (w v : W) (name : String) (objs : O × Maps C B H P) (r : Result L × W)
        → IsOpened IsOpen (inr objs.0) w v
        → Opens IsOpen inl r.0 v r.1
        → IsStarted w (generic_tried loader api name objs r)
    generic_tried-IsStarted w v name objs (ok l, u) loaded h = (refl, (l, v, refl, loaded, h))
    generic_tried-IsStarted w v name objs (err e, u) loaded h =
        bracket IsOpen loaded h (closed objs.0 u)

    driver_tried-IsStarted :
        (w v : W) (name : String) (ifindex : ℕ) (objs : O × Maps C B H P) (r : Result L × W)
        → IsOpened IsOpen (inr objs.0) w v
        → Opens IsOpen inl r.0 v r.1
        → IsStarted w (driver_tried loader api name ifindex objs r)
    driver_tried-IsStarted w v name ifindex objs (ok l, u) loaded h =
        (refl, (l, v, refl, loaded, h))
    driver_tried-IsStarted w v name ifindex objs (err e, u) loaded h =
        let r = api.attach_xdp Program.ingress ifindex XdpFlags.generic_mode u in
        generic_tried-IsStarted w v name objs r loaded (
          Opens-after IsOpen inl r.0 v u r.1 h
            (laws.attach_xdp Program.ingress ifindex XdpFlags.generic_mode u))

    objects_loaded-IsStarted :
        (w : W) (name : String) (ifindex : ℕ) (r : Result (O × Maps C B H P) × W)
        → Opens IsOpen (λ (x : O × Maps C B H P). inr x.0) r.0 w r.1
        → IsStarted w (objects_loaded loader api name ifindex r)
    objects_loaded-IsStarted w name ifindex (ok objs, u) h =
        driver_tried-IsStarted w u name ifindex objs
          (api.attach_xdp Program.ingress ifindex XdpFlags.driver_mode u) h
          (laws.attach_xdp Program.ingress ifindex XdpFlags.driver_mode u)
    objects_loaded-IsStarted w name ifindex (err e, u) h = h

    interface_found-IsStarted :
        (w : W) (name : String) (r : Result ℕ × W)
        → IsSame IsOpen w r.1
        → IsStarted w (interface_found loader api name r)
    interface_found-IsStarted w name (ok ifindex, u) h =
        let r = loader.load_objects u in
        objects_loaded-IsStarted w name ifindex r (
          Opens-after IsOpen (λ (x : O × Maps C B H P). inr x.0) r.0 w u r.1 h
            (laws.load_objects u))
    interface_found-IsStarted w name (err e, u) h = h

    memlock_removed-IsStarted :
        (w : W) (name : String) (r : Option Error × W)
        → IsSame IsOpen w r.1
        → IsStarted w (memlock_removed loader api name r)
    memlock_removed-IsStarted w name (none, u) h =
        interface_found-IsStarted w name (loader.interface_by_name name u)
          (IsSame-trans IsOpen h (laws.interface_by_name name u))
    memlock_removed-IsStarted w name (some e, u) h = h

    -- `NewManager` leaves the same open as before where it returns an error, on any path, and
    -- otherwise exactly the objects and one link more, with no veth attached. `lbObjects.Close`
    -- succeeds.
    pub new_manager-IsStarted :
        (name : String) (w : W) → IsStarted w (new_manager loader api name w)
    unfolding new_manager
    new_manager-IsStarted name w =
        memlock_removed-IsStarted w name (loader.remove_memlock w) (laws.remove_memlock w)
