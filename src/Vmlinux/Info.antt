-- ===== src/Vmlinux/Info.antt =====
-- What the kernel tells of programs, maps and links.
use container_lb.Layout.{
  Ctype, scalar, array, struct, union, member, bits, embed, end, ◌⨾◌, Packing, Scalar,
}
use container_lb.Vmlinux.Scalars.{s32, u32, u64, u8}

abbrev pub bpf_prog_info : Ctype
bpf_prog_info = struct Packing.natural (
    member "type" (scalar u32)
    ⨾ member "id" (scalar u32)
    ⨾ member "tag" (array (scalar u8) 8)
    ⨾ member "jited_prog_len" (scalar u32)
    ⨾ member "xlated_prog_len" (scalar u32)
    ⨾ member "jited_prog_insns" (scalar u64)
    ⨾ member "xlated_prog_insns" (scalar u64)
    ⨾ member "load_time" (scalar u64)
    ⨾ member "created_by_uid" (scalar u32)
    ⨾ member "nr_map_ids" (scalar u32)
    ⨾ member "map_ids" (scalar u64)
    ⨾ member "name" (array (scalar Scalar.char) 16)
    ⨾ member "ifindex" (scalar u32)
    ⨾ bits "gpl_compatible" u32 1
    ⨾ member "netns_dev" (scalar u64)
    ⨾ member "netns_ino" (scalar u64)
    ⨾ member "nr_jited_ksyms" (scalar u32)
    ⨾ member "nr_jited_func_lens" (scalar u32)
    ⨾ member "jited_ksyms" (scalar u64)
    ⨾ member "jited_func_lens" (scalar u64)
    ⨾ member "btf_id" (scalar u32)
    ⨾ member "func_info_rec_size" (scalar u32)
    ⨾ member "func_info" (scalar u64)
    ⨾ member "nr_func_info" (scalar u32)
    ⨾ member "nr_line_info" (scalar u32)
    ⨾ member "line_info" (scalar u64)
    ⨾ member "jited_line_info" (scalar u64)
    ⨾ member "nr_jited_line_info" (scalar u32)
    ⨾ member "line_info_rec_size" (scalar u32)
    ⨾ member "jited_line_info_rec_size" (scalar u32)
    ⨾ member "nr_prog_tags" (scalar u32)
    ⨾ member "prog_tags" (scalar u64)
    ⨾ member "run_time_ns" (scalar u64)
    ⨾ member "run_cnt" (scalar u64)
    ⨾ member "recursion_misses" (scalar u64)
    ⨾ member "verified_insns" (scalar u32)
    ⨾ member "attach_btf_obj_id" (scalar u32)
    ⨾ member "attach_btf_id" (scalar u32)
    ⨾ end)

abbrev pub bpf_map_info : Ctype
bpf_map_info = struct Packing.natural (
    member "type" (scalar u32)
    ⨾ member "id" (scalar u32)
    ⨾ member "key_size" (scalar u32)
    ⨾ member "value_size" (scalar u32)
    ⨾ member "max_entries" (scalar u32)
    ⨾ member "map_flags" (scalar u32)
    ⨾ member "name" (array (scalar Scalar.char) 16)
    ⨾ member "ifindex" (scalar u32)
    ⨾ member "btf_vmlinux_value_type_id" (scalar u32)
    ⨾ member "netns_dev" (scalar u64)
    ⨾ member "netns_ino" (scalar u64)
    ⨾ member "btf_id" (scalar u32)
    ⨾ member "btf_key_type_id" (scalar u32)
    ⨾ member "btf_value_type_id" (scalar u32)
    ⨾ member "btf_vmlinux_id" (scalar u32)
    ⨾ member "map_extra" (scalar u64)
    ⨾ member "hash" (scalar u64)
    ⨾ member "hash_size" (scalar u32)
    ⨾ end)

abbrev pub bpf_btf_info : Ctype
bpf_btf_info = struct Packing.natural (
    member "btf" (scalar u64)
    ⨾ member "btf_size" (scalar u32)
    ⨾ member "id" (scalar u32)
    ⨾ member "name" (scalar u64)
    ⨾ member "name_len" (scalar u32)
    ⨾ member "kernel_btf" (scalar u32)
    ⨾ end)

abbrev pub bpf_link_info : Ctype
bpf_link_info = struct Packing.natural (
    member "type" (scalar u32)
    ⨾ member "id" (scalar u32)
    ⨾ member "prog_id" (scalar u32)
    ⨾ embed (
        union (
          member "raw_tracepoint" (
            struct Packing.natural (
              member "tp_name" (scalar u64)
              ⨾ member "tp_name_len" (scalar u32)
              ⨾ member "cookie" (scalar u64)
              ⨾ end))
          ⨾ member "tracing" (
              struct Packing.natural (
                member "attach_type" (scalar u32)
                ⨾ member "target_obj_id" (scalar u32)
                ⨾ member "target_btf_id" (scalar u32)
                ⨾ member "cookie" (scalar u64)
                ⨾ end))
          ⨾ member "cgroup" (
              struct Packing.natural
                (member "cgroup_id" (scalar u64) ⨾ member "attach_type" (scalar u32) ⨾ end))
          ⨾ member "iter" (
              struct Packing.natural (
                member "target_name" (scalar u64)
                ⨾ member "target_name_len" (scalar u32)
                ⨾ embed (
                    union (
                      member "map" (struct Packing.natural (member "map_id" (scalar u32) ⨾ end))
                      ⨾ end))
                ⨾ embed (
                    union (
                      member "cgroup" (
                        struct Packing.natural
                          (member "cgroup_id" (scalar u64) ⨾ member "order" (scalar u32) ⨾ end))
                      ⨾ member "task" (
                          struct Packing.natural
                            (member "tid" (scalar u32) ⨾ member "pid" (scalar u32) ⨾ end))
                      ⨾ end))
                ⨾ end))
          ⨾ member "netns" (
              struct Packing.natural
                (member "netns_ino" (scalar u32) ⨾ member "attach_type" (scalar u32) ⨾ end))
          ⨾ member "xdp" (struct Packing.natural (member "ifindex" (scalar u32) ⨾ end))
          ⨾ member "struct_ops" (struct Packing.natural (member "map_id" (scalar u32) ⨾ end))
          ⨾ member "netfilter" (
              struct Packing.natural (
                member "pf" (scalar u32)
                ⨾ member "hooknum" (scalar u32)
                ⨾ member "priority" (scalar s32)
                ⨾ member "flags" (scalar u32)
                ⨾ end))
          ⨾ member "kprobe_multi" (
              struct Packing.natural (
                member "addrs" (scalar u64)
                ⨾ member "count" (scalar u32)
                ⨾ member "flags" (scalar u32)
                ⨾ member "missed" (scalar u64)
                ⨾ member "cookies" (scalar u64)
                ⨾ end))
          ⨾ member "uprobe_multi" (
              struct Packing.natural (
                member "path" (scalar u64)
                ⨾ member "offsets" (scalar u64)
                ⨾ member "ref_ctr_offsets" (scalar u64)
                ⨾ member "cookies" (scalar u64)
                ⨾ member "path_size" (scalar u32)
                ⨾ member "count" (scalar u32)
                ⨾ member "flags" (scalar u32)
                ⨾ member "pid" (scalar u32)
                ⨾ end))
          ⨾ member "perf_event" (
              struct Packing.natural (
                member "type" (scalar u32)
                ⨾ embed (
                    union (
                      member "uprobe" (
                        struct Packing.natural (
                          member "file_name" (scalar u64)
                          ⨾ member "name_len" (scalar u32)
                          ⨾ member "offset" (scalar u32)
                          ⨾ member "cookie" (scalar u64)
                          ⨾ member "ref_ctr_offset" (scalar u64)
                          ⨾ end))
                      ⨾ member "kprobe" (
                          struct Packing.natural (
                            member "func_name" (scalar u64)
                            ⨾ member "name_len" (scalar u32)
                            ⨾ member "offset" (scalar u32)
                            ⨾ member "addr" (scalar u64)
                            ⨾ member "missed" (scalar u64)
                            ⨾ member "cookie" (scalar u64)
                            ⨾ end))
                      ⨾ member "tracepoint" (
                          struct Packing.natural (
                            member "tp_name" (scalar u64)
                            ⨾ member "name_len" (scalar u32)
                            ⨾ member "cookie" (scalar u64)
                            ⨾ end))
                      ⨾ member "event" (
                          struct Packing.natural (
                            member "config" (scalar u64)
                            ⨾ member "type" (scalar u32)
                            ⨾ member "cookie" (scalar u64)
                            ⨾ end))
                      ⨾ end))
                ⨾ end))
          ⨾ member "tcx" (
              struct Packing.natural
                (member "ifindex" (scalar u32) ⨾ member "attach_type" (scalar u32) ⨾ end))
          ⨾ member "netkit" (
              struct Packing.natural
                (member "ifindex" (scalar u32) ⨾ member "attach_type" (scalar u32) ⨾ end))
          ⨾ member "sockmap" (
              struct Packing.natural
                (member "map_id" (scalar u32) ⨾ member "attach_type" (scalar u32) ⨾ end))
          ⨾ end))
    ⨾ end)
