-- ===== src/Manager/Lifecycle.antt =====
-- `NewManager` and `Close` of userspace/bpf/loader.go.
use Prim.Native.String.{String}
use container_lb.Base.{ℕ, Option, none, some, List, [], ◌∷◌, ◌++◌}
use container_lb.Maps.{Maps}
use container_lb.Go.Action.{Error}
use container_lb.Go.Dict.{Dict, delete}
use container_lb.Manager.{Manager, Program, XdpFlags, LinkApi, Result, ok, err}

-- The packages rlimit and net, and `loadLbObjects` and `lbObjects.Close` of the bindings: `O` is a
-- loaded collection, with the maps in it.
pub record Loader (C B H P O W : Type 0) : Type 0 where
  pub remove_memlock : W → Option Error × W
  pub interface_by_name : String → W → Result ℕ × W
  pub load_objects : W → Result (O × Maps C B H P) × W
  pub close_objects : O → W → Option Error × W

-- A manager with its `objs` and `xdpLink`; `ifaceName` and `ifaceIdx` are never read.
pub record Loaded (C B H P L O W : Type 0) : Type 0 where
  pub objs : O
  pub manager : Manager C B H P L W
  pub xdp_link : Option L

-- What `NewManager` returns; an error leaves the world alone.
pub data Startup (C B H P L O W : Type 0) : Type 0 where
  running : Loaded C B H P L O W → Startup C B H P L O W
  refused : Error → W → Startup C B H P L O W

module _ {C B H P L O W : Type 0} (loader : Loader C B H P O W) (api : LinkApi L W) where
  abbrev with_link : O × Maps C B H P → L → W → Startup C B H P L O W
  with_link (objs, maps) l w = running (record {
    objs = objs;
    manager = record { maps = maps; veth_links = []; world = w };
    xdp_link = some l;
  })

  abbrev pub generic_tried : String → O × Maps C B H P → Result L × W → Startup C B H P L O W
  generic_tried name objs (ok l, w) = with_link objs l w
  generic_tried name objs (err e, w) =
      refused (Error.attach_ingress name e) (loader.close_objects objs.0 w).1

  abbrev pub driver_tried : String → ℕ → O × Maps C B H P → Result L × W → Startup C B H P L O W
  driver_tried name ifindex objs (ok l, w) = with_link objs l w
  driver_tried name ifindex objs (err e, w) =
      generic_tried name objs (api.attach_xdp Program.ingress ifindex XdpFlags.generic_mode w)

  abbrev pub objects_loaded : String → ℕ → Result (O × Maps C B H P) × W → Startup C B H P L O W
  objects_loaded name ifindex (ok objs, w) =
      driver_tried name ifindex objs (api.attach_xdp Program.ingress ifindex XdpFlags.driver_mode w)
  objects_loaded name ifindex (err e, w) = refused (Error.load_objects e) w

  abbrev pub interface_found : String → Result ℕ × W → Startup C B H P L O W
  interface_found name (ok ifindex, w) = objects_loaded name ifindex (loader.load_objects w)
  interface_found name (err e, w) = refused (Error.interface_not_found name e) w

  abbrev pub memlock_removed : String → Option Error × W → Startup C B H P L O W
  memlock_removed name (none, w) = interface_found name (loader.interface_by_name name w)
  memlock_removed name (some e, w) = refused (Error.remove_memlock e) w

  unfoldable pub new_manager : String → W → Startup C B H P L O W
  new_manager name w = memlock_removed name (loader.remove_memlock w)

  -- `if err := …; err != nil { errs = append(errs, …) }`, with the errors that follow.
  abbrev pub add_error : (Error → Error) → Option Error → List Error → List Error
  add_error f none errs = errs
  add_error f (some e) errs = f e ∷ errs

  -- The loop over the entries of `vethLinks` in the order of the iteration; an error does not end it.
  unfoldable pub close_links : Dict L → Manager C B H P L W → List Error × Manager C B H P L W
  close_links [] m = ([], m)
  close_links ((name, l) ∷ rest) m =
      let (e, w) = api.close l m.world in
      let (errs, m') =
        close_links rest (record m { veth_links = delete name m.veth_links; world = w }) in
      (add_error (Error.detach_xdp name) e errs, m')

  abbrev pub close_xdp : Option L → W → Option Error × W
  close_xdp none w = (none, w)
  close_xdp (some l) w = api.close l w

  -- The errors that the message of `Close` names; it returns `nil` where there are none.
  unfoldable pub close : (Dict L → Dict L) → Loaded C B H P L O W → List Error × Manager C B H P L W
  close range_order r =
      let (errs, m) = close_links (range_order r.manager.veth_links) r.manager in
      let (e, w) = close_xdp r.xdp_link m.world in
      let (f, w') = loader.close_objects r.objs w in
      (
        errs ++ (add_error Error.detach_ingress e (add_error Error.close_objects f [])),
        record m { world = w' },
      )
