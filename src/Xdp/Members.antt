-- ===== src/Xdp/Members.antt =====
-- The bounds checks of kernelspace/xdp_lb.c against the structures of kernelspace/vmlinux.h.
use Prim.Native.String.{String}
use container_lb.Base.{ℕ, ◌+◌, ◌*◌, ◌/◌, ◌≤◌, ◌≡◌, ◌↔◌, refl, some, true, arith}
use container_lb.Checksum.Rewrite.{IsBytes}
use container_lb.Headers.Eth
use container_lb.Headers.Ip
use container_lb.Packet.{Endian, Packet, word16}
use container_lb.Types.{eth_p_ip}
use container_lb.Layout.{sizeof, find}
use container_lb.Layout.Laws.{find-sizeof}
use container_lb.Vmlinux.Headers.{iphdr, icmphdr}
use container_lb.Xdp.{is_icmp}
use container_lb.Xdp.Parse.{is_icmp_iff}

iphdr-sizeof : sizeof iphdr ≡ 20
unfolding sizeof
iphdr-sizeof = refl

icmphdr-sizeof : sizeof icmphdr ≡ 8
unfolding sizeof
icmphdr-sizeof = refl

-- In a frame that the header tests of the two programs accept, every member of `struct iphdr`
-- behind the Ethernet header lies inside of the frame.
pub iphdr_member_inside :
    (e : Endian) (bpf_htons : ℕ → ℕ) (p : Packet) (name : String) (start w : ℕ)
    → bpf_htons eth_p_ip ≡ word16 e 8 0
    → IsBytes p
    → is_icmp e bpf_htons p ≡ some true
    → find name iphdr ≡ some (start, w)
    → 8 * Eth.size + start + w ≤ 8 * p.len
iphdr_member_inside e bpf_htons p name start w htons b accepted found =
    let icmp = (is_icmp_iff e bpf_htons p htons b).0 accepted in
    omega (arith, find-sizeof name iphdr start w found, iphdr-sizeof, icmp.ip_inside)

-- In a frame that the header tests of the two programs accept, every member of `struct icmphdr`
-- behind a header of the length that `ihl` gives lies inside of the frame.
pub icmphdr_member_inside :
    (e : Endian) (bpf_htons : ℕ → ℕ) (p : Packet) (name : String) (start w : ℕ)
    → bpf_htons eth_p_ip ≡ word16 e 8 0
    → IsBytes p
    → is_icmp e bpf_htons p ≡ some true
    → find name icmphdr ≡ some (start, w)
    → 8 * (Eth.size + Ip.ihl e (p.byte 14) * 4) + start + w ≤ 8 * p.len
icmphdr_member_inside e bpf_htons p name start w htons b accepted found =
    let icmp = (is_icmp_iff e bpf_htons p htons b).0 accepted in
    omega (arith, find-sizeof name icmphdr start w found, icmphdr-sizeof, icmp.icmp_inside)

-- In the big-endian build the header tests of an IPv4 frame take the version, 4, for the header
-- length: they accept exactly the ICMP frames of 38 bytes or more, whatever the length of the
-- header is.
pub is_icmp_big :
    (bpf_htons : ℕ → ℕ) (p : Packet)
    → bpf_htons eth_p_ip ≡ word16 Endian.big 8 0
    → IsBytes p
    → p.byte 14 / 16 ≡ 4
    → (is_icmp Endian.big bpf_htons p ≡ some true)
      ↔ ((38 ≤ p.len) × (p.byte 12 ≡ 8) × (p.byte 13 ≡ 0) × (p.byte 23 ≡ 1))
is_icmp_big bpf_htons p htons b version =
    let exact = is_icmp_iff Endian.big bpf_htons p htons b in
    (
      λ h.
          let icmp = exact.0 h in
          (omega (arith, icmp.icmp_inside), icmp.ethertype_high, icmp.ethertype_low, icmp.protocol),
      λ (long, high, low, protocol). exact.1 (record {
        ip_inside = omega arith;
        ethertype_high = high;
        ethertype_low = low;
        protocol = protocol;
        icmp_inside = omega arith;
      }),
    )
