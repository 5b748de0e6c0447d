-- ===== src/Vmlinux/Redirect.antt =====
-- The values of the redirecting maps, and the state of a redirection.
use container_lb.Layout.{
  Ctype, scalar, pointer, enumeration, array, struct, union, member, embed, end, ◌⨾◌, Packing,
  Scalar,
}
use container_lb.Vmlinux.Scalars.{be16, be32, u32, u64, u8}

abbrev pub bpf_devmap_val : Ctype
bpf_devmap_val = struct Packing.natural (
    member "ifindex" (scalar u32)
    ⨾ member "bpf_prog" (union (member "fd" (scalar Scalar.int) ⨾ member "id" (scalar u32) ⨾ end))
    ⨾ end)

abbrev pub bpf_cpumap_val : Ctype
bpf_cpumap_val = struct Packing.natural (
    member "qsize" (scalar u32)
    ⨾ member "bpf_prog" (union (member "fd" (scalar Scalar.int) ⨾ member "id" (scalar u32) ⨾ end))
    ⨾ end)

abbrev pub in6_addr : Ctype
in6_addr = struct Packing.natural (
    member "in6_u" (
      union (
        member "u6_addr8" (array (scalar u8) 16)
        ⨾ member "u6_addr16" (array (scalar be16) 8)
        ⨾ member "u6_addr32" (array (scalar be32) 4)
        ⨾ end))
    ⨾ end)

abbrev pub bpf_nh_params : Ctype
bpf_nh_params = struct Packing.natural (
    member "nh_family" (scalar u32)
    ⨾ embed (union (member "ipv4_nh" (scalar u32) ⨾ member "ipv6_nh" in6_addr ⨾ end))
    ⨾ end)

abbrev pub bpf_redirect_info : Ctype
bpf_redirect_info = struct Packing.natural (
    member "tgt_index" (scalar u64)
    ⨾ member "tgt_value" (pointer "void")
    ⨾ member "map" (pointer "struct bpf_map")
    ⨾ member "flags" (scalar u32)
    ⨾ member "map_id" (scalar u32)
    ⨾ member "map_type" (enumeration "bpf_map_type")
    ⨾ member "nh" bpf_nh_params
    ⨾ member "kern_flags" (scalar u32)
    ⨾ end)
