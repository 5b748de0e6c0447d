-- ===== src/Discovery.antt =====
-- `DockerWatcher` of userspace/discovery/docker.go: which containers become backends. The Docker
-- client, netns and netlink are parameters over the state `W` of the system.
pub mod Sources
pub mod Veth
pub mod Laws
pub mod Handles
use Prim.Native.String.{String}
use text.Mathlib.Text.{◌==◌ as str_eq}
use mathlib.Core.Option
use container_lb.Base.{
  ℕ, Bool, true, false, not, ◌&&◌, ◌||◌, Option, none, some, List, [], ◌∷◌, ◌==◌, if◌then◌else◌,
}
use container_lb.Base.Monad.{◌>>=◌}
use container_lb.Base.Lists.{length}
use container_lb.Go.Action.{Error}
use container_lb.Go.Dict.{Dict, lookup}
use container_lb.Go.Net.{Ip, HardwareAddr, to4}
use container_lb.Manager.{Result, ok, err}
use container_lb.Pool.{Backend}

-- What the Docker client tells of a container in the list, and of one that is inspected.
pub record Container : Type 0 where
  pub id : String
  pub labels : Dict String

pub record Network : Type 0 where
  pub ip_address : String
  pub mac_address : String

-- `health` is `none` where the container has no health check; `networks` are in the order of the
-- iteration over the map.
pub record Inspect : Type 0 where
  pub running : Bool
  pub health : Option String
  pub networks : List Network
  pub pid : ℕ
  pub name : String

pub record Link : Type 0 where
  pub kind : String
  pub parent_index : ℕ

-- The Docker client, with netns and netlink: `N` is a network namespace, `H` a netlink handle.
pub record System (W N H : Type 0) : Type 0 where
  pub container_list : W → Result (List Container) × W
  pub container_inspect : String → W → Result Inspect × W
  pub get_from_pid : ℕ → W → Result N × W
  pub close_ns : N → W → W
  pub new_handle_at : N → W → Result H × W
  pub delete_handle : H → W → W
  pub link_list : H → W → Result (List Link) × W
  pub link_by_index : ℕ → W → Result String × W

-- What the packages net, strings and strconv do to a text: `port` is `ParseUint` of the trimmed
-- text in 16 bits, `short_id` its first twelve bytes, `trim_slash` drops a slash in front. An ID of
-- Docker has 64 characters; of a shorter one than twelve, for which the slice of the ID would
-- panic, nothing is said.
pub record Text : Type 0 where
  pub parse_ip : String → Option Ip
  pub parse_mac : String → Option HardwareAddr
  pub parse_port : String → Option ℕ
  pub short_id : String → String
  pub trim_slash : String → String

-- The first veth of the list, by the index of its other end; 0 where there is none.
unfoldable pub first_veth : List Link → ℕ
first_veth [] = 0
first_veth (l ∷ ls) = if str_eq l.kind "veth" then l.parent_index else first_veth ls

module _ {W N H : Type 0} (sys : System W N H) where
  abbrev named : ℕ → ℕ → Result String × W → Result (String × ℕ) × W
  named pid index (ok name, w) = (ok (name, index), w)
  named pid index (err e, w) = (err (Error.host_veth index e), w)

  -- From the test of `hostVethIdx` on.
  abbrev host_link : ℕ → ℕ → W → Result (String × ℕ) × W
  host_link pid index w =
      if index == 0
      then (err (Error.no_veth pid), w)
      else named pid index (sys.link_by_index index w)

  abbrev listed : ℕ → Result (List Link) × W → Result (String × ℕ) × W
  listed pid (ok links, w) = host_link pid (first_veth links) w
  listed pid (err e, w) = (err (Error.list_links pid e), w)

  -- With the handle, and its deferred `Delete`.
  abbrev with_handle : ℕ → Result H × W → Result (String × ℕ) × W
  with_handle pid (ok h, w) =
      let (r, w') = listed pid (sys.link_list h w) in (r, sys.delete_handle h w')
  with_handle pid (err e, w) = (err (Error.netlink_handle pid e), w)

  -- With the namespace, and its deferred `Close`.
  abbrev with_ns : ℕ → Result N × W → Result (String × ℕ) × W
  with_ns pid (ok ns, w) =
      let (r, w') = with_handle pid (sys.new_handle_at ns w) in (r, sys.close_ns ns w')
  with_ns pid (err e, w) = (err (Error.container_netns pid e), w)

  unfoldable pub find_host_veth : ℕ → W → Result (String × ℕ) × W
  find_host_veth pid w = with_ns pid (sys.get_from_pid pid w)

-- `!inspect.State.Running`, and the status of a health check.
unfoldable pub is_serving : Inspect → Bool
is_serving i = i.running && healthy i.health
  where
    healthy : Option String → Bool
    healthy none = true
    healthy (some status) = str_eq status "healthy" || str_eq status "none"

module _ (text : Text) where
  -- One round of the loop over the networks: `none` is `continue`.
  abbrev pub network_address : Network → Option (Ip × HardwareAddr)
  network_address n = if str_eq n.ip_address "" then none else do
    ip ← text.parse_ip n.ip_address
    v4 ← to4 ip
    mac ← text.parse_mac n.mac_address
    if length mac == 6 then some (ip, mac) else none

  abbrev pub or_next :
      Option (Ip × HardwareAddr) → Option (Ip × HardwareAddr) → Option (Ip × HardwareAddr)
  or_next (some a) rest = some a
  or_next none rest = rest

  unfoldable pub address : List Network → Option (Ip × HardwareAddr)
  address [] = none
  address (n ∷ ns) = or_next (network_address n) (address ns)

  -- The label `lb.port`, or the port of the watcher.
  unfoldable pub port_of : ℕ → Container → ℕ
  port_of target_port c =
      Option.get_or (do label ← lookup "lb.port" c.labels; text.parse_port label) target_port

  module _ {W N H : Type 0} (sys : System W N H) (target_port : ℕ) where
    abbrev with_veth :
        Container → Inspect → Ip × HardwareAddr → Result (String × ℕ) × W → Option Backend × W
    with_veth c i a (err e, w) = (none, w)
    with_veth c i (ip, mac) (ok (veth_name, veth_idx), w) = (
      some (record {
        id = text.short_id c.id;
        name = text.trim_slash i.name;
        ip = ip;
        mac = mac;
        port = port_of target_port c;
        healthy = true;
        container_pid = i.pid;
        veth_name = veth_name;
        veth_idx = veth_idx;
      }),
      w,
    )

    abbrev with_address : Container → Inspect → Option (Ip × HardwareAddr) → W → Option Backend × W
    with_address c i none w = (none, w)
    with_address c i (some a) w = with_veth c i a (find_host_veth sys i.pid w)

    abbrev inspected : Container → Result Inspect × W → Option Backend × W
    inspected c (err e, w) = (none, w)
    inspected c (ok i, w) =
        if is_serving i then with_address c i (address i.networks) w else (none, w)

    -- One round of the loop over the containers; `none` is `continue`.
    unfoldable pub backend_of : Container → W → Option Backend × W
    backend_of c w = inspected c (sys.container_inspect c.id w)

    abbrev append_to : Option Backend → List Backend → List Backend
    append_to none bs = bs
    append_to (some b) bs = b ∷ bs

    unfoldable pub backends_of : List Container → W → List Backend × W
    backends_of [] w = ([], w)
    backends_of (c ∷ cs) w =
        let (b, w1) = backend_of c w in let (bs, w2) = backends_of cs w1 in (append_to b bs, w2)

    abbrev from_list : Result (List Container) × W → Result (List Backend) × W
    from_list (err e, w) = (err (Error.list_containers e), w)
    from_list (ok cs, w) = let (bs, w') = backends_of cs w in (ok bs, w')

    unfoldable pub discover_backends : W → Result (List Backend) × W
    discover_backends w = from_list (sys.container_list w)
