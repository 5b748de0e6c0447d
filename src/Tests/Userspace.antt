-- ===== src/Tests/Userspace.antt =====
-- The theorems on userspace/discovery/docker.go and userspace/stats/collector.go, at a system with
-- one container, and on a `Sync` that fails.
use Prim.Native.String.{String}
use text.Mathlib.Text.{◌==◌ as str_eq}
use native.Mathlib.Omega.{arith}
use container_lb.Base.{ℕ, ◌≡◌, refl, none, some, List, [], ◌∷◌, true, if◌then◌else◌}
use container_lb.Go.Action.{Error}
use container_lb.Go.Dict.{lookup, insert, delete}
use container_lb.Go.Net.{to4, equal, to_mac}
use container_lb.Manager.{
  ok, config_of, entry_of, update_config, update_backend, clear_backend, attach, attach_veth_xdp,
  detach_veth_xdp,
}
use container_lb.Pool.{
  Backend, new_pool, index_by_veth, write_backend, write_backends, clear_stale, detach_old,
  sync_maps, sync,
}
use container_lb.Pool.Failed.{IsUnpublished, sync-IsUnpublished}
use container_lb.Discovery.{
  first_veth, System, Text, find_host_veth, is_serving, address, port_of, backend_of, backends_of,
  discover_backends,
}
use container_lb.Discovery.Laws.{AreDiscovered, discover_backends-AreDiscovered}
use container_lb.Discovery.Handles.{IsSystem, discover_backends-IsSame}
use container_lb.Go.Resources.{IsSame, IsSame-refl}
use container_lb.Tests.World.{
  World, empty, IsOpen, open_left, open_right, close_left, close_right, open_left-IsOpened,
  open_right-IsOpened, close_left-IsClosed, close_right-IsClosed,
}
use container_lb.Collector.{truncate, Size, format_bytes, Row, render}
use container_lb.Collector.Format.{
  IsTruncated, truncate-IsTruncated, IsFormatted, format_bytes_total,
}
use container_lb.Collector.Rows.{AreRows, render_total}
use container_lb.Tests.Machine.{machine, machine-IsKernel}
use container_lb.Tests.Pools.{links, manager, stopped, serving, two, one, order, start, sync_to}

-- Twenty letters do not fit into the column.
abbrev long_name : List ℕ
long_name =
    97 ∷ 97 ∷ 97 ∷ 97 ∷ 97 ∷ 97 ∷ 97 ∷ 97 ∷ 97 ∷ 97 ∷ 97 ∷ 97 ∷ 97 ∷ 97 ∷ 97 ∷ 97 ∷ 97 ∷ 97 ∷ 97
    ∷ 97 ∷ []

truncate-IsTruncated_example :
    (t : List ℕ) × (truncate long_name 16 ≡ some t) × IsTruncated long_name 16 t
truncate-IsTruncated_example = truncate-IsTruncated long_name 16 (omega arith)

format_bytes_total_example : (size : Size) × (format_bytes 1536 ≡ some size) × IsFormatted 1536 size
format_bytes_total_example = format_bytes_total 1536 (omega arith)

abbrev letters : String → List ℕ
letters s = long_name

render_total_example :
    (rs : List Row) × (render machine letters manager.maps 0 two ≡ some rs)
    × AreRows machine letters manager.maps 0 two rs
render_total_example = render_total machine letters manager.maps 0 two (omega arith)

-- A container that serves.
abbrev pub system : System World ℕ ℕ
system = record {
  container_list = λ w. (ok (record { id = "a"; labels = ("lb.port", "80") ∷ [] } ∷ []), w);
  container_inspect = λ id w. (
    ok (record {
      running = true;
      health = some "healthy";
      networks = record { ip_address = "172.18.0.2"; mac_address = "02:42:ac:12:00:02" } ∷ [];
      pid = 10;
      name = "/web-1";
    }),
    w,
  );
  get_from_pid = λ pid w. (ok w.next, open_left w);
  close_ns = λ ns w. close_left ns w;
  new_handle_at = λ ns w. (ok w.next, open_right w);
  delete_handle = λ h w. close_right h w;
  link_list = λ h w. (ok (record { kind = "veth"; parent_index = 5 } ∷ []), w);
  link_by_index = λ index w. (ok "veth1", w);
}

abbrev pub texts : Text
texts = record {
  parse_ip = λ s. if str_eq s "172.18.0.2" then some (172 ∷ 18 ∷ 0 ∷ 2 ∷ []) else none;
  parse_mac =
      λ s. if str_eq s "02:42:ac:12:00:02" then some (2 ∷ 66 ∷ 172 ∷ 18 ∷ 0 ∷ 2 ∷ []) else none;
  parse_port = λ s. if str_eq s "80" then some 80 else none;
  short_id = λ s. s;
  trim_slash = λ s. if str_eq s "/web-1" then "web-1" else s;
}

pub discovered : (w : World) → (discover_backends texts system 8080 w).0 ≡ ok one
unfolding discover_backends backends_of backend_of find_host_veth first_veth is_serving address
    port_of to4 lookup
discovered w = refl

discover_backends-AreDiscovered_example : AreDiscovered system texts 8080 one
discover_backends-AreDiscovered_example =
    discover_backends-AreDiscovered system texts 8080 empty one (discovered empty)

system-IsSystem : IsSystem system IsOpen
system-IsSystem = record {
  container_list = λ w. IsSame-refl IsOpen w;
  container_inspect = λ id w. IsSame-refl IsOpen w;
  get_from_pid = λ pid w. open_left-IsOpened w;
  close_ns = λ ns w up. close_left-IsClosed ns w;
  new_handle_at = λ ns w. open_right-IsOpened w;
  delete_handle = λ h w up. close_right-IsClosed h w;
  link_list = λ h w. IsSame-refl IsOpen w;
  link_by_index = λ index w. IsSame-refl IsOpen w;
}

-- A namespace is open before, and stays open.
discover_backends-IsSame_example :
    IsSame IsOpen (open_left empty) (discover_backends texts system 8080 (open_left empty)).1
discover_backends-IsSame_example =
    discover_backends-IsSame system IsOpen system-IsSystem texts 8080 (open_left empty)

-- The second backend has no IPv4 address.
abbrev half_bad : List Backend
half_bad = stopped ∷ record serving { ip = [] } ∷ []

failed_sync :
    (sync_to half_bad start).0 ≡ some (Error.write_backend 1 "web-1" Error.backend_not_ipv4)
unfolding sync sync_maps write_backends write_backend clear_stale detach_old index_by_veth
    update_backend clear_backend update_config attach_veth_xdp detach_veth_xdp attach lookup insert
    delete to4 equal config_of entry_of new_pool to_mac
failed_sync = refl

sync-IsUnpublished_example : IsUnpublished machine links start (sync_to half_bad start).1
sync-IsUnpublished_example =
    sync-IsUnpublished machine links 2 machine-IsKernel start order half_bad
      (Error.write_backend 1 "web-1" Error.backend_not_ipv4) failed_sync

-- The interface of `stopped` keeps its program after the next `Sync`, in which it is gone.
leaked :
    ((sync_to one (sync_to half_bad start).1).0 ≡ none)
    × (lookup "veth2" (sync_to one (sync_to half_bad start).1).1.bpf.veth_links ≡ some 6)
unfolding sync sync_maps write_backends write_backend clear_stale detach_old index_by_veth
    update_backend clear_backend update_config attach_veth_xdp detach_veth_xdp attach lookup insert
    delete to4 equal config_of entry_of new_pool to_mac
leaked = (refl, refl)
