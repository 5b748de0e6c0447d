-- ===== src/Vmlinux/Xdp.antt =====
-- The context of an XDP program, and what the kernel keeps of a frame on the XDP path.
use container_lb.Layout.{
  Ctype, scalar, pointer, enumeration, array, struct, union, member, bits, padding, embed, end, ◌⨾◌,
  Packing, Scalar,
}
use container_lb.Vmlinux.Kernel.{atomic_t, list_head, local_lock_t}
use container_lb.Vmlinux.Scalars.{ktime_t, netmem_ref, u16, u32, u64, u8}

abbrev pub xdp_md : Ctype
xdp_md = struct Packing.natural (
    member "data" (scalar u32)
    ⨾ member "data_end" (scalar u32)
    ⨾ member "data_meta" (scalar u32)
    ⨾ member "ingress_ifindex" (scalar u32)
    ⨾ member "rx_queue_index" (scalar u32)
    ⨾ member "egress_ifindex" (scalar u32)
    ⨾ end)

abbrev pub xdp_mem_info : Ctype
xdp_mem_info = struct Packing.natural (member "type" (scalar u32) ⨾ member "id" (scalar u32) ⨾ end)

abbrev pub xdp_rxq_info : Ctype
xdp_rxq_info = struct Packing.natural (
    member "dev" (pointer "struct net_device")
    ⨾ member "queue_index" (scalar u32)
    ⨾ member "reg_state" (scalar u32)
    ⨾ member "mem" xdp_mem_info
    ⨾ member "frag_size" (scalar u32)
    ⨾ padding Scalar.long 64
    ⨾ padding Scalar.long 64
    ⨾ padding Scalar.long 64
    ⨾ padding Scalar.long 64
    ⨾ end)

abbrev pub xdp_txq_info : Ctype
xdp_txq_info = struct Packing.natural (member "dev" (pointer "struct net_device") ⨾ end)

abbrev pub xdp_buff : Ctype
xdp_buff = struct Packing.natural (
    member "data" (pointer "void")
    ⨾ member "data_end" (pointer "void")
    ⨾ member "data_meta" (pointer "void")
    ⨾ member "data_hard_start" (pointer "void")
    ⨾ member "rxq" (pointer "struct xdp_rxq_info")
    ⨾ member "txq" (pointer "struct xdp_txq_info")
    ⨾ embed (
        union (
          embed (
            struct Packing.natural
              (member "frame_sz" (scalar u32) ⨾ member "flags" (scalar u32) ⨾ end))
          ⨾ member "frame_sz_flags_init" (scalar u64)
          ⨾ end))
    ⨾ end)

abbrev pub xdp_frame : Ctype
xdp_frame = struct Packing.natural (
    member "data" (pointer "void")
    ⨾ member "len" (scalar u32)
    ⨾ member "headroom" (scalar u32)
    ⨾ member "metasize" (scalar u32)
    ⨾ bits "mem_type" Scalar.unsigned_int 32
    ⨾ member "dev_rx" (pointer "struct net_device")
    ⨾ member "frame_sz" (scalar u32)
    ⨾ member "flags" (scalar u32)
    ⨾ end)

abbrev pub xdp_dev_bulk_queue : Ctype
xdp_dev_bulk_queue = struct Packing.natural (
    member "q" (array (pointer "struct xdp_frame") 16)
    ⨾ member "flush_node" list_head
    ⨾ member "dev" (pointer "struct net_device")
    ⨾ member "dev_rx" (pointer "struct net_device")
    ⨾ member "xdp_prog" (pointer "struct bpf_prog")
    ⨾ member "count" (scalar Scalar.unsigned_int)
    ⨾ member "bq_lock" local_lock_t
    ⨾ end)

abbrev pub skb_shared_hwtstamps : Ctype
skb_shared_hwtstamps = struct Packing.natural (
    embed (union (member "hwtstamp" (scalar ktime_t) ⨾ member "netdev_data" (pointer "void") ⨾ end))
    ⨾ end)

abbrev pub skb_frag : Ctype
skb_frag = struct Packing.natural (
    member "netmem" (scalar netmem_ref)
    ⨾ member "len" (scalar Scalar.unsigned_int)
    ⨾ member "offset" (scalar Scalar.unsigned_int)
    ⨾ end)

abbrev pub skb_frag_t : Ctype
skb_frag_t = skb_frag

abbrev pub xsk_tx_metadata_compl : Ctype
xsk_tx_metadata_compl = struct Packing.natural (member "tx_timestamp" (pointer "__u64") ⨾ end)

abbrev pub skb_shared_info : Ctype
skb_shared_info = struct Packing.natural (
    member "flags" (scalar u8)
    ⨾ member "meta_len" (scalar u8)
    ⨾ member "nr_frags" (scalar u8)
    ⨾ member "tx_flags" (scalar u8)
    ⨾ member "gso_size" (scalar Scalar.unsigned_short)
    ⨾ member "gso_segs" (scalar Scalar.unsigned_short)
    ⨾ member "frag_list" (pointer "struct sk_buff")
    ⨾ embed (
        union
          (member "hwtstamps" skb_shared_hwtstamps ⨾ member "xsk_meta" xsk_tx_metadata_compl ⨾ end))
    ⨾ member "gso_type" (scalar Scalar.unsigned_int)
    ⨾ member "tskey" (scalar u32)
    ⨾ member "dataref" atomic_t
    ⨾ embed (
        union (
          embed (
            struct Packing.natural (
              member "xdp_frags_size" (scalar u32)
              ⨾ member "xdp_frags_truesize" (scalar u32)
              ⨾ end))
          ⨾ member "destructor_arg" (pointer "void")
          ⨾ end))
    ⨾ member "frags" (array skb_frag_t 17)
    ⨾ end)

abbrev pub xdp_attachment_info : Ctype
xdp_attachment_info =
    struct Packing.natural
      (member "prog" (pointer "struct bpf_prog") ⨾ member "flags" (scalar u32) ⨾ end)

abbrev pub netdev_bpf : Ctype
netdev_bpf = struct Packing.natural (
    member "command" (enumeration "bpf_netdev_command")
    ⨾ embed (
        union (
          embed (
            struct Packing.natural (
              member "flags" (scalar u32)
              ⨾ member "prog" (pointer "struct bpf_prog")
              ⨾ member "extack" (pointer "struct netlink_ext_ack")
              ⨾ end))
          ⨾ embed
              (struct Packing.natural (member "offmap" (pointer "struct bpf_offloaded_map") ⨾ end))
          ⨾ member "xsk" (
              struct Packing.natural (
                member "pool" (pointer "struct xsk_buff_pool")
                ⨾ member "queue_id" (scalar u16)
                ⨾ end))
          ⨾ end))
    ⨾ end)

abbrev pub bpf_xdp_entity : Ctype
bpf_xdp_entity = struct Packing.natural (
    member "prog" (pointer "struct bpf_prog") ⨾ member "link" (pointer "struct bpf_xdp_link") ⨾ end)
