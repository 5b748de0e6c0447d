-- ===== src/Manager.antt =====
-- `Manager` of userspace/bpf/loader.go, with the map operations of userspace/bpf/maps.go. The
-- calls hold the manager's mutex or run under that of the pool, so they are steps on its state.
pub mod Maps
pub mod Links
pub mod Origin
pub mod Capacity
pub mod Stats
pub mod Settings
pub mod Lifecycle
pub mod Balance
pub mod Closing
pub mod Release
use mathlib.Core.Option
use Prim.Native.String.{String}
use container_lb.Base.{ℕ, ◌+◌, ◌%◌, ◌^◌, Option, none, some, List, [], ◌∷◌}
use container_lb.Packet.{Endian}
use container_lb.Types.{BackendInfo, LbConfig, StatsCounter, zero_mac}
use container_lb.Maps.{Kernel, Maps as BpfMaps}
use container_lb.Go.Action.{Error, Action, done, fail, ◌>>◌}
use container_lb.Go.Dict.{Dict, lookup, insert, delete}
use container_lb.Go.Net.{Ip, HardwareAddr, V4, to4, uint32, to_mac}

pub data Program : Type 0 where
  ingress snat : Program

pub data XdpFlags : Type 0 where
  driver_mode generic_mode : XdpFlags

pub data Result (A : Type 0) : Type 0 where
  ok : A → Result A
  err : Error → Result A

-- The package link of github.com/cilium/ebpf: `AttachXDP` and `Link.Close`, over what the kernel
-- knows of attachments.
pub record LinkApi (L W : Type 0) : Type 0 where
  pub attach_xdp : Program → ℕ → XdpFlags → W → Result L × W
  pub close : L → W → Option Error × W

-- The state of a manager: the maps of `objs`, and `vethLinks`.
pub record Manager (C B H P L W : Type 0) : Type 0 where
  pub maps : BpfMaps C B H P
  pub veth_links : Dict L
  pub world : W

abbrev pub empty_backend : BackendInfo
empty_backend = record { ipv4 = 0; port = 0; mac = zero_mac; weight = 0 }

abbrev vip_number : Endian → Option V4 → ℕ
vip_number e none = 0
vip_number e (some v4) = uint32 e v4

-- The value that `UpdateConfig` writes.
unfoldable pub config_of : Endian → Ip → ℕ → ℕ → HardwareAddr → LbConfig
config_of e vip vport backend_count src_mac = record {
  vip = vip_number e (to4 vip);
  vport = vport;
  backend_count = backend_count;
  src_mac = to_mac src_mac;
}

-- The entry that `UpdateBackend` writes.
unfoldable pub entry_of : Endian → V4 → ℕ → HardwareAddr → BackendInfo
entry_of e v4 port mac = record { ipv4 = uint32 e v4; port = port; mac = to_mac mac; weight = 1 }

module _ {C B H P L W : Type 0} (k : Kernel C B H P) where
  abbrev put_config_map : Option C → Action (Manager C B H P L W)
  put_config_map none m = fail Error.config_map_put m
  put_config_map (some c) m = done (record m { maps = record (m.maps) { config_map = c } })

  unfoldable pub update_config : Ip → ℕ → ℕ → HardwareAddr → Action (Manager C B H P L W)
  update_config vip vport backend_count src_mac m =
      put_config_map
        (k.config.put m.maps.config_map 0 (config_of k.endian vip vport backend_count src_mac)) m

  abbrev put_backend_map : Error → Option B → Action (Manager C B H P L W)
  put_backend_map e none m = fail e m
  put_backend_map e (some b) m = done (record m { maps = record (m.maps) { backend_map = b } })

  abbrev put_backend_ips_map : Option H → Action (Manager C B H P L W)
  put_backend_ips_map none m = fail Error.backend_ips_map_put m
  put_backend_ips_map (some h) m =
      done (record m { maps = record (m.maps) { backend_ips_map = h } })

  -- From the test of `v4` on.
  abbrev write_entries : ℕ → ℕ → HardwareAddr → Option V4 → Action (Manager C B H P L W)
  write_entries index port mac none = fail Error.backend_not_ipv4
  write_entries index port mac (some v4) =
      (λ m.
        put_backend_map Error.backend_map_put
          (k.backend.put m.maps.backend_map index (entry_of k.endian v4 port mac)) m)
      >> (λ m. put_backend_ips_map (k.ips.put m.maps.backend_ips_map (uint32 k.endian v4) index) m)

  unfoldable pub update_backend : ℕ → Ip → ℕ → HardwareAddr → Action (Manager C B H P L W)
  update_backend index ip port mac = write_entries index port mac (to4 ip)

  -- The result of `Delete` is thrown away.
  abbrev deleted_ip : Option H → Action (Manager C B H P L W)
  deleted_ip none m = done m
  deleted_ip (some h) m = done (record m { maps = record (m.maps) { backend_ips_map = h } })

  abbrev delete_ip : Option V4 → Action (Manager C B H P L W)
  delete_ip none m = done m
  delete_ip (some v4) m = deleted_ip (k.ips.delete m.maps.backend_ips_map (uint32 k.endian v4)) m

  unfoldable pub clear_backend : ℕ → Ip → Action (Manager C B H P L W)
  clear_backend index ip =
      (λ m.
        put_backend_map Error.backend_map_clear
          (k.backend.put m.maps.backend_map index empty_backend) m)
      >> delete_ip (to4 ip)

-- The sum over the CPUs, at the width of `uint64`.
unfoldable pub sum_stats : List StatsCounter → ℕ × ℕ → ℕ × ℕ
sum_stats [] acc = acc
sum_stats (s ∷ rest) (packets, bytes) =
    sum_stats rest ((packets + s.rx_packets) % 2 ^ 64, (bytes + s.rx_bytes) % 2 ^ 64)

-- `none` is an error of the lookup.
unfoldable pub read_stats :
    {C B H P : Type 0} → Kernel C B H P → BpfMaps C B H P → ℕ → Option (ℕ × ℕ)
read_stats k m index =
    Option.map (λ per_cpu. sum_stats per_cpu (0, 0)) (k.counters.lookup_all m.counters_map index)

module _ {L W : Type 0} (api : LinkApi L W) where
  -- From the first attempt on, in driver mode; the second is in generic mode.
  abbrev attach_generic : Error → Result L × W → Result L × W
  attach_generic e (ok l, w) = (ok l, w)
  attach_generic e (err f, w) = (err (Error.attach_xdp e f), w)

  abbrev attach_driver : Program → ℕ → Result L × W → Result L × W
  attach_driver program ifindex (ok l, w) = (ok l, w)
  attach_driver program ifindex (err e, w) =
      attach_generic e (api.attach_xdp program ifindex XdpFlags.generic_mode w)

  -- The two attempts of `NewManager` and `AttachVethXDP`.
  unfoldable pub attach : Program → ℕ → W → Result L × W
  attach program ifindex w =
      attach_driver program ifindex (api.attach_xdp program ifindex XdpFlags.driver_mode w)

module _ {C B H P L W : Type 0} (api : LinkApi L W) where
  abbrev record_link : String → Result L × W → Action (Manager C B H P L W)
  record_link name (ok l, w) m =
      done (record m { veth_links = insert name l m.veth_links; world = w })
  record_link name (err e, w) m = fail e (record m { world = w })

  abbrev attach_new : String → ℕ → Option L → Action (Manager C B H P L W)
  attach_new name ifindex (some l) m = done m
  attach_new name ifindex none m = record_link name (attach api Program.snat ifindex m.world) m

  unfoldable pub attach_veth_xdp : String → ℕ → Action (Manager C B H P L W)
  attach_veth_xdp name ifindex m = attach_new name ifindex (lookup name m.veth_links) m

  abbrev forget_link : String → Option Error × W → Action (Manager C B H P L W)
  forget_link name (none, w) m =
      done (record m { veth_links = delete name m.veth_links; world = w })
  forget_link name (some e, w) m = fail (Error.detach_xdp name e) (record m { world = w })

  abbrev detach_old : String → Option L → Action (Manager C B H P L W)
  detach_old name none m = done m
  detach_old name (some l) m = forget_link name (api.close l m.world) m

  unfoldable pub detach_veth_xdp : String → Action (Manager C B H P L W)
  detach_veth_xdp name m = detach_old name (lookup name m.veth_links) m
