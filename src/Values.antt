-- ===== src/Values.antt =====
-- The values of the maps as bytes: the control plane writes the structures that bpf2go generates
-- into userspace/bpf/lb_bpfel.go and userspace/bpf/lb_bpfeb.go, and the programs read those of
-- kernelspace/types.h. Go lays a structure out by the rules of Layout.
pub mod RoundTrip
use Prim.Native.String.{String}
use container_lb.Base.{ℕ, ◌+◌, ◌/◌, Option, some, ◌==◌, if◌then◌else◌}
use container_lb.Base.Monad.{◌>>=◌}
use container_lb.Packet.{Endian, Packet, load8, store8, store16, store32}
use container_lb.Types.{EthAddr, BackendInfo, LbConfig, eth_alen}
use container_lb.Layout.{
  Scalar, Ctype, scalar, array, struct, member, end, ◌⨾◌, Packing, Place, sizeof, find, offsetof,
}
use container_lb.Layout.Members.{load_member}
use container_lb.Vmlinux.Scalars.{u8, u16, u32, u64}

-- `struct backend_info`, `struct lb_config` and `struct stats_counter`
abbrev pub backend_info : Ctype
backend_info = struct Packing.natural (
    member "ipv4" (scalar u32)
    ⨾ member "port" (scalar u16)
    ⨾ member "pad" (scalar u16)
    ⨾ member "mac" (array (scalar u8) eth_alen)
    ⨾ member "pad2" (array (scalar u8) 2)
    ⨾ member "weight" (scalar u32)
    ⨾ end)

abbrev pub lb_config : Ctype
lb_config = struct Packing.natural (
    member "vip" (scalar u32)
    ⨾ member "vport" (scalar u16)
    ⨾ member "pad" (scalar u16)
    ⨾ member "backend_count" (scalar u32)
    ⨾ member "src_mac" (array (scalar u8) eth_alen)
    ⨾ member "pad2" (array (scalar u8) 2)
    ⨾ end)

abbrev pub stats_counter : Ctype
stats_counter =
    struct Packing.natural (member "rx_packets" (scalar u64) ⨾ member "rx_bytes" (scalar u64) ⨾ end)

-- `lbBackendInfo`, `lbLbConfig` and `lbStatsCounter`; `structs.HostLayout` is empty.
abbrev host_layout : Ctype
host_layout = struct Packing.natural end

abbrev pub lb_backend_info : Ctype
lb_backend_info = struct Packing.natural (
    member "_" host_layout
    ⨾ member "Ipv4" (scalar u32)
    ⨾ member "Port" (scalar u16)
    ⨾ member "Pad" (scalar u16)
    ⨾ member "Mac" (array (scalar u8) 6)
    ⨾ member "Pad2" (array (scalar u8) 2)
    ⨾ member "Weight" (scalar u32)
    ⨾ end)

abbrev pub lb_lb_config : Ctype
lb_lb_config = struct Packing.natural (
    member "_" host_layout
    ⨾ member "Vip" (scalar u32)
    ⨾ member "Vport" (scalar u16)
    ⨾ member "Pad" (scalar u16)
    ⨾ member "BackendCount" (scalar u32)
    ⨾ member "SrcMac" (array (scalar u8) 6)
    ⨾ member "Pad2" (array (scalar u8) 2)
    ⨾ end)

abbrev pub lb_stats_counter : Ctype
lb_stats_counter =
    struct Packing.natural (
      member "_" host_layout
      ⨾ member "RxPackets" (scalar u64)
      ⨾ member "RxBytes" (scalar u64)
      ⨾ end)

-- Memory of the size of a type, all zero.
abbrev pub zeroed : Ctype → Packet
zeroed t = record { len = sizeof t; byte = λ i. 0 }

abbrev store_place : Endian → Packet → Place → ℕ → Option Packet
store_place e p (start, w) v =
    if w == 32 then store32 e p (start / 8) v else store16 e p (start / 8) v

-- A member of 32 or 16 bits, and one of ETH_ALEN bytes.
abbrev pub store_member : Endian → Ctype → String → ℕ → Packet → Option Packet
store_member e t name v p = do place ← find name t; store_place e p place v

abbrev pub store_mac : Ctype → String → EthAddr → Packet → Option Packet
store_mac t name mac p = do
  at ← offsetof t name
  p ← store8 p at mac.b0
  p ← store8 p (at + 1) mac.b1
  p ← store8 p (at + 2) mac.b2
  p ← store8 p (at + 3) mac.b3
  p ← store8 p (at + 4) mac.b4
  store8 p (at + 5) mac.b5

abbrev pub load_mac : Ctype → String → Packet → Option EthAddr
load_mac t name p = do
  at ← offsetof t name
  b0 ← load8 p at
  b1 ← load8 p (at + 1)
  b2 ← load8 p (at + 2)
  b3 ← load8 p (at + 3)
  b4 ← load8 p (at + 4)
  b5 ← load8 p (at + 5)
  some (record { b0 = b0; b1 = b1; b2 = b2; b3 = b3; b4 = b4; b5 = b5 })

-- The memory of the literals in `UpdateBackend` and `UpdateConfig`.
unfoldable pub write_backend_info : Endian → BackendInfo → Option Packet
write_backend_info e b = do
  p ← store_member e lb_backend_info "Ipv4" b.ipv4 (zeroed lb_backend_info)
  p ← store_member e lb_backend_info "Port" b.port p
  p ← store_mac lb_backend_info "Mac" b.mac p
  store_member e lb_backend_info "Weight" b.weight p

unfoldable pub write_lb_config : Endian → LbConfig → Option Packet
write_lb_config e c = do
  p ← store_member e lb_lb_config "Vip" c.vip (zeroed lb_lb_config)
  p ← store_member e lb_lb_config "Vport" c.vport p
  p ← store_member e lb_lb_config "BackendCount" c.backend_count p
  store_mac lb_lb_config "SrcMac" c.src_mac p

-- What a program reads through a pointer to such a value.
unfoldable pub read_backend_info : Endian → Packet → Option BackendInfo
read_backend_info e p = do
  ipv4 ← load_member e p 0 backend_info "ipv4"
  port ← load_member e p 0 backend_info "port"
  mac ← load_mac backend_info "mac" p
  weight ← load_member e p 0 backend_info "weight"
  some (record { ipv4 = ipv4; port = port; mac = mac; weight = weight })

unfoldable pub read_lb_config : Endian → Packet → Option LbConfig
read_lb_config e p = do
  vip ← load_member e p 0 lb_config "vip"
  vport ← load_member e p 0 lb_config "vport"
  backend_count ← load_member e p 0 lb_config "backend_count"
  src_mac ← load_mac lb_config "src_mac" p
  some (record { vip = vip; vport = vport; backend_count = backend_count; src_mac = src_mac })
