-- ===== src/Vmlinux/Headers.antt =====
-- The headers that the programs of kernelspace/xdp_lb.c read and write.
use container_lb.Layout.{
  Ctype, scalar, array, struct, union, member, bits, embed, end, ◌⨾◌, Packing, Scalar,
}
use container_lb.Vmlinux.Scalars.{be16, be32, sum16, u8}

abbrev pub ethhdr : Ctype
ethhdr = struct Packing.natural (
    member "h_dest" (array (scalar Scalar.unsigned_char) 6)
    ⨾ member "h_source" (array (scalar Scalar.unsigned_char) 6)
    ⨾ member "h_proto" (scalar be16)
    ⨾ end)

abbrev pub iphdr : Ctype
iphdr = struct Packing.natural (
    bits "ihl" u8 4
    ⨾ bits "version" u8 4
    ⨾ member "tos" (scalar u8)
    ⨾ member "tot_len" (scalar be16)
    ⨾ member "id" (scalar be16)
    ⨾ member "frag_off" (scalar be16)
    ⨾ member "ttl" (scalar u8)
    ⨾ member "protocol" (scalar u8)
    ⨾ member "check" (scalar sum16)
    ⨾ embed (
        union (
          embed (
            struct Packing.natural
              (member "saddr" (scalar be32) ⨾ member "daddr" (scalar be32) ⨾ end))
          ⨾ member "addrs" (
              struct Packing.natural
                (member "saddr" (scalar be32) ⨾ member "daddr" (scalar be32) ⨾ end))
          ⨾ end))
    ⨾ end)

abbrev pub icmphdr : Ctype
icmphdr = struct Packing.natural (
    member "type" (scalar u8)
    ⨾ member "code" (scalar u8)
    ⨾ member "checksum" (scalar sum16)
    ⨾ member "un" (
        union (
          member "echo" (
            struct Packing.natural
              (member "id" (scalar be16) ⨾ member "sequence" (scalar be16) ⨾ end))
          ⨾ member "gateway" (scalar be32)
          ⨾ member "frag" (
              struct Packing.natural
                (member "__unused" (scalar be16) ⨾ member "mtu" (scalar be16) ⨾ end))
          ⨾ member "reserved" (array (scalar u8) 4)
          ⨾ end))
    ⨾ end)
