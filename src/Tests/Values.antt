-- ===== src/Tests/Values.antt =====
-- The theorems on the layout of structures and of map values at concrete inputs.
use container_lb.Base.{◌+◌, ◌*◌, ◌≤◌, ◌≡◌, ◌↔◌, refl, some, true, arith}
use mathlib.Core.Option
use container_lb.Packet.{Endian, Packet, load8}
use container_lb.Headers.Eth
use container_lb.Headers.Ip
use container_lb.Headers.Members.{ihl-load}
use container_lb.Layout.{sizeof, find}
use container_lb.Layout.Members.{load_member}
use container_lb.Vmlinux.Headers.{iphdr}
use container_lb.Vmlinux.HashTab.{bpf_lru_list}
use container_lb.Vmlinux.Xdp.{xdp_md, xdp_rxq_info}
use container_lb.Xdp.{is_icmp}
use container_lb.Xdp.Members.{iphdr_member_inside, icmphdr_member_inside, is_icmp_big}
use container_lb.Values.{
  backend_info, lb_config, write_backend_info, read_backend_info, write_lb_config, read_lb_config,
}
use container_lb.Values.RoundTrip.{read-write_backend_info, read-write_lb_config}
use container_lb.Tests.Machine.{machine}
use container_lb.Tests.DataPlane.{ping, ping-IsBytes, config, backend}

read-write_backend_info_example :
    (p : Packet) × (write_backend_info Endian.big backend ≡ some p)
    × (p.len ≡ sizeof backend_info)
    × (read_backend_info Endian.big p ≡ some backend)
read-write_backend_info_example =
    read-write_backend_info Endian.big backend (omega arith) (omega arith) (omega arith)

read-write_lb_config_example :
    (p : Packet) × (write_lb_config Endian.little config ≡ some p)
    × (p.len ≡ sizeof lb_config)
    × (read_lb_config Endian.little p ≡ some config)
read-write_lb_config_example =
    read-write_lb_config Endian.little config (omega arith) (omega arith) (omega arith)

ihl-load_example :
    load_member Endian.little ping Eth.size iphdr "ihl"
    ≡ Option.map (Ip.ihl Endian.little) (load8 ping Eth.size)
ihl-load_example = ihl-load Endian.little ping ping-IsBytes

ping_accepted : is_icmp Endian.little machine.bpf_htons ping ≡ some true
unfolding is_icmp
ping_accepted = refl

iphdr_member_inside_example : 8 * Eth.size + 128 + 32 ≤ 8 * ping.len
unfolding find sizeof
iphdr_member_inside_example =
    iphdr_member_inside Endian.little machine.bpf_htons ping "daddr" 128 32 refl ping-IsBytes
      ping_accepted refl

icmphdr_member_inside_example :
    8 * (Eth.size + Ip.ihl Endian.little (ping.byte 14) * 4) + 32 + 32 ≤ 8 * ping.len
unfolding find sizeof
icmphdr_member_inside_example =
    icmphdr_member_inside Endian.little machine.bpf_htons ping "un" 32 32 refl ping-IsBytes
      ping_accepted refl

is_icmp_big_example :
    (is_icmp Endian.big (λ x. x) ping ≡ some true)
    ↔ ((38 ≤ ping.len) × (ping.byte 12 ≡ 8) × (ping.byte 13 ≡ 0) × (ping.byte 23 ≡ 1))
is_icmp_big_example = is_icmp_big (λ x. x) ping refl ping-IsBytes refl

-- The padding that the kernel dump declares brings these to whole cache lines.
cache_lines : (sizeof bpf_lru_list ≡ 128) × (sizeof xdp_rxq_info ≡ 64) × (sizeof xdp_md ≡ 24)
unfolding sizeof
cache_lines = (refl, refl, refl)
