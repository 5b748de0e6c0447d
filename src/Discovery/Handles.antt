-- ===== src/Discovery/Handles.antt =====
-- The namespaces and netlink handles of `FindHostVeth` in userspace/discovery/docker.go: what it
-- opens it closes.
use Prim.Native.String.{String}
use container_lb.Base.{ℕ, ◌⊎◌, Option, none, some, inl, inr, Bool-cases, List, [], ◌∷◌, ◌==◌}
use container_lb.Go.Net.{Ip, HardwareAddr}
use container_lb.Manager.{Result, ok, err}
use container_lb.Go.Resources.{IsSame, IsClosed, Opens, IsSame-refl, IsSame-trans, bracket}
use container_lb.Discovery.{
  Container, Inspect, Link, first_veth, System, Text, host_link, named, listed, with_handle,
  with_ns, find_host_veth, is_serving, address, with_veth, with_address, inspected, backend_of,
  backends_of, from_list, discover_backends,
}

-- `IsOpen` tells which namespaces and handles are open: `GetFromPid` and `NewHandleAt` open what
-- they return, which was not open before, `Close` and `Delete` close the one they are called on, and
-- the other calls open and close nothing.
pub record IsSystem {W N H : Type 0} (sys : System W N H) (IsOpen : W → N ⊎ H → Type 0)
    : Type 0 where
  pub container_list : (w : W) → IsSame IsOpen w (sys.container_list w).1
  pub container_inspect : (id : String) (w : W) → IsSame IsOpen w (sys.container_inspect id w).1
  pub get_from_pid :
      (pid : ℕ) (w : W) → Opens IsOpen inl (sys.get_from_pid pid w).0 w (sys.get_from_pid pid w).1
  pub close_ns :
      (ns : N) (w : W) → IsOpen w (inl ns) → IsClosed IsOpen (inl ns) w (sys.close_ns ns w)
  pub new_handle_at :
      (ns : N) (w : W) → Opens IsOpen inr (sys.new_handle_at ns w).0 w (sys.new_handle_at ns w).1
  pub delete_handle :
      (h : H) (w : W) → IsOpen w (inr h) → IsClosed IsOpen (inr h) w (sys.delete_handle h w)
  pub link_list : (h : H) (w : W) → IsSame IsOpen w (sys.link_list h w).1
  pub link_by_index : (index : ℕ) (w : W) → IsSame IsOpen w (sys.link_by_index index w).1

module _ {W N H : Type 0} (sys : System W N H) (IsOpen : W → N ⊎ H → Type 0)
    (laws : IsSystem sys IsOpen) where
  abbrev Same : W → W → Type 0
  Same = IsSame IsOpen

  named-IsSame : (pid index : ℕ) (r : Result String × W) → Same r.1 (named sys pid index r).1
  named-IsSame pid index (ok name, w) = IsSame-refl IsOpen w
  named-IsSame pid index (err e, w) = IsSame-refl IsOpen w

  host_link-IsSame : (pid index : ℕ) (w : W) → Same w (host_link sys pid index w).1
  host_link-IsSame pid index w = elim (Bool-cases (index == 0)) [
    | inl unset ↦ rw unset (IsSame-refl IsOpen w)
    | inr set ↦ rw set (
        IsSame-trans IsOpen (laws.link_by_index index w)
          (named-IsSame pid index (sys.link_by_index index w)))
  ]

  listed-IsSame : (pid : ℕ) (r : Result (List Link) × W) → Same r.1 (listed sys pid r).1
  listed-IsSame pid (ok links, w) = host_link-IsSame pid (first_veth links) w
  listed-IsSame pid (err e, w) = IsSame-refl IsOpen w

  -- With the handle that was opened from `w`.
  with_handle-IsSame :
      (pid : ℕ) (w : W) (r : Result H × W)
      → Opens IsOpen inr r.0 w r.1
      → Same w (with_handle sys pid r).1
  with_handle-IsSame pid w (ok h, u) opened =
      let used = IsSame-trans IsOpen (laws.link_list h u) (listed-IsSame pid (sys.link_list h u)) in
      bracket IsOpen opened used (
        laws.delete_handle h (listed sys pid (sys.link_list h u)).1 (used.keeps (inr h) opened.now))
  with_handle-IsSame pid w (err e, u) opened = opened

  with_ns-IsSame :
      (pid : ℕ) (w : W) (r : Result N × W)
      → Opens IsOpen inl r.0 w r.1
      → Same w (with_ns sys pid r).1
  with_ns-IsSame pid w (ok ns, u) opened =
      let used = with_handle-IsSame pid u (sys.new_handle_at ns u) (laws.new_handle_at ns u) in
      bracket IsOpen opened used (
        laws.close_ns ns (with_handle sys pid (sys.new_handle_at ns u)).1
          (used.keeps (inl ns) opened.now))
  with_ns-IsSame pid w (err e, u) opened = opened

  find_host_veth-IsSame : (pid : ℕ) (w : W) → Same w (find_host_veth sys pid w).1
  unfolding find_host_veth
  find_host_veth-IsSame pid w =
      with_ns-IsSame pid w (sys.get_from_pid pid w) (laws.get_from_pid pid w)

  module _ (text : Text) (target_port : ℕ) where
    with_veth-IsSame :
        (c : Container) (i : Inspect) (a : Ip × HardwareAddr) (r : Result (String × ℕ) × W)
        → Same r.1 (with_veth text sys target_port c i a r).1
    with_veth-IsSame c i a (err e, w) = IsSame-refl IsOpen w
    with_veth-IsSame c i (ip, mac) (ok (name, index), w) = IsSame-refl IsOpen w

    with_address-IsSame :
        (c : Container) (i : Inspect) (a : Option (Ip × HardwareAddr)) (w : W)
        → Same w (with_address text sys target_port c i a w).1
    with_address-IsSame c i none w = IsSame-refl IsOpen w
    with_address-IsSame c i (some a) w =
        IsSame-trans IsOpen (find_host_veth-IsSame i.pid w)
          (with_veth-IsSame c i a (find_host_veth sys i.pid w))

    inspected-IsSame :
        (c : Container) (r : Result Inspect × W) → Same r.1 (inspected text sys target_port c r).1
    inspected-IsSame c (err e, w) = IsSame-refl IsOpen w
    inspected-IsSame c (ok i, w) = elim (Bool-cases (is_serving i)) [
      | inl up ↦ rw up (with_address-IsSame c i (address text i.networks) w)
      | inr down ↦ rw down (IsSame-refl IsOpen w)
    ]

    backend_of-IsSame : (c : Container) (w : W) → Same w (backend_of text sys target_port c w).1
    unfolding backend_of
    backend_of-IsSame c w =
        IsSame-trans IsOpen (laws.container_inspect c.id w)
          (inspected-IsSame c (sys.container_inspect c.id w))

    backends_of-IsSame :
        (cs : List Container) (w : W) → Same w (backends_of text sys target_port cs w).1
    unfolding backends_of
    backends_of-IsSame [] w = IsSame-refl IsOpen w
    backends_of-IsSame (c ∷ cs) w =
        IsSame-trans IsOpen (backend_of-IsSame c w)
          (backends_of-IsSame cs (backend_of text sys target_port c w).1)

    from_list-IsSame :
        (r : Result (List Container) × W) → Same r.1 (from_list text sys target_port r).1
    from_list-IsSame (err e, w) = IsSame-refl IsOpen w
    from_list-IsSame (ok cs, w) = backends_of-IsSame cs w

    -- A run of `DiscoverBackends` leaves the same namespaces and handles open as there were, on
    -- every path: it closes each one that it opens, and no other.
    pub discover_backends-IsSame :
        (w : W) → IsSame IsOpen w (discover_backends text sys target_port w).1
    unfolding discover_backends
    discover_backends-IsSame w =
        IsSame-trans IsOpen (laws.container_list w) (from_list-IsSame (sys.container_list w))
