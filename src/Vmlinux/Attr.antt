-- ===== src/Vmlinux/Attr.antt =====
-- The argument of the system call `bpf`, by command.
use container_lb.Layout.{Ctype, scalar, struct, union, member, embed, end, ◌⨾◌, Packing}
use container_lb.Vmlinux.Scalars.{s32, u32, u64}
use container_lb.Vmlinux.AttrObjects.{
  bpf_attr_map_create, bpf_attr_map_elem, bpf_attr_batch, bpf_attr_prog_load, bpf_attr_obj,
  bpf_attr_prog_attach, bpf_attr_test, bpf_attr_get_id, bpf_attr_info, bpf_attr_query,
  bpf_attr_raw_tracepoint,
}

abbrev pub bpf_attr_btf_load : Ctype
bpf_attr_btf_load = struct Packing.natural (
    member "btf" (scalar u64)
    ⨾ member "btf_log_buf" (scalar u64)
    ⨾ member "btf_size" (scalar u32)
    ⨾ member "btf_log_size" (scalar u32)
    ⨾ member "btf_log_level" (scalar u32)
    ⨾ member "btf_log_true_size" (scalar u32)
    ⨾ member "btf_flags" (scalar u32)
    ⨾ member "btf_token_fd" (scalar s32)
    ⨾ end)

abbrev pub bpf_attr_task_fd_query : Ctype
bpf_attr_task_fd_query = struct Packing.natural (
    member "pid" (scalar u32)
    ⨾ member "fd" (scalar u32)
    ⨾ member "flags" (scalar u32)
    ⨾ member "buf_len" (scalar u32)
    ⨾ member "buf" (scalar u64)
    ⨾ member "prog_id" (scalar u32)
    ⨾ member "fd_type" (scalar u32)
    ⨾ member "probe_offset" (scalar u64)
    ⨾ member "probe_addr" (scalar u64)
    ⨾ end)

abbrev pub bpf_attr_link_create : Ctype
bpf_attr_link_create = struct Packing.natural (
    embed (union (member "prog_fd" (scalar u32) ⨾ member "map_fd" (scalar u32) ⨾ end))
    ⨾ embed (union (member "target_fd" (scalar u32) ⨾ member "target_ifindex" (scalar u32) ⨾ end))
    ⨾ member "attach_type" (scalar u32)
    ⨾ member "flags" (scalar u32)
    ⨾ embed (
        union (
          member "target_btf_id" (scalar u32)
          ⨾ embed (
              struct Packing.natural
                (member "iter_info" (scalar u64) ⨾ member "iter_info_len" (scalar u32) ⨾ end))
          ⨾ member "perf_event" (struct Packing.natural (member "bpf_cookie" (scalar u64) ⨾ end))
          ⨾ member "kprobe_multi" (
              struct Packing.natural (
                member "flags" (scalar u32)
                ⨾ member "cnt" (scalar u32)
                ⨾ member "syms" (scalar u64)
                ⨾ member "addrs" (scalar u64)
                ⨾ member "cookies" (scalar u64)
                ⨾ end))
          ⨾ member "tracing" (
              struct Packing.natural
                (member "target_btf_id" (scalar u32) ⨾ member "cookie" (scalar u64) ⨾ end))
          ⨾ member "netfilter" (
              struct Packing.natural (
                member "pf" (scalar u32)
                ⨾ member "hooknum" (scalar u32)
                ⨾ member "priority" (scalar s32)
                ⨾ member "flags" (scalar u32)
                ⨾ end))
          ⨾ member "tcx" (
              struct Packing.natural (
                embed (
                  union
                    (member "relative_fd" (scalar u32) ⨾ member "relative_id" (scalar u32) ⨾ end))
                ⨾ member "expected_revision" (scalar u64)
                ⨾ end))
          ⨾ member "uprobe_multi" (
              struct Packing.natural (
                member "path" (scalar u64)
                ⨾ member "offsets" (scalar u64)
                ⨾ member "ref_ctr_offsets" (scalar u64)
                ⨾ member "cookies" (scalar u64)
                ⨾ member "cnt" (scalar u32)
                ⨾ member "flags" (scalar u32)
                ⨾ member "pid" (scalar u32)
                ⨾ end))
          ⨾ member "netkit" (
              struct Packing.natural (
                embed (
                  union
                    (member "relative_fd" (scalar u32) ⨾ member "relative_id" (scalar u32) ⨾ end))
                ⨾ member "expected_revision" (scalar u64)
                ⨾ end))
          ⨾ member "cgroup" (
              struct Packing.natural (
                embed (
                  union
                    (member "relative_fd" (scalar u32) ⨾ member "relative_id" (scalar u32) ⨾ end))
                ⨾ member "expected_revision" (scalar u64)
                ⨾ end))
          ⨾ end))
    ⨾ end)

abbrev pub bpf_attr_link_update : Ctype
bpf_attr_link_update = struct Packing.natural (
    member "link_fd" (scalar u32)
    ⨾ embed (union (member "new_prog_fd" (scalar u32) ⨾ member "new_map_fd" (scalar u32) ⨾ end))
    ⨾ member "flags" (scalar u32)
    ⨾ embed (union (member "old_prog_fd" (scalar u32) ⨾ member "old_map_fd" (scalar u32) ⨾ end))
    ⨾ end)

abbrev pub bpf_attr_link_detach : Ctype
bpf_attr_link_detach = struct Packing.natural (member "link_fd" (scalar u32) ⨾ end)

abbrev pub bpf_attr_enable_stats : Ctype
bpf_attr_enable_stats = struct Packing.natural (member "type" (scalar u32) ⨾ end)

abbrev pub bpf_attr_iter_create : Ctype
bpf_attr_iter_create =
    struct Packing.natural (member "link_fd" (scalar u32) ⨾ member "flags" (scalar u32) ⨾ end)

abbrev pub bpf_attr_prog_bind_map : Ctype
bpf_attr_prog_bind_map = struct Packing.natural (
    member "prog_fd" (scalar u32)
    ⨾ member "map_fd" (scalar u32)
    ⨾ member "flags" (scalar u32)
    ⨾ end)

abbrev pub bpf_attr_token_create : Ctype
bpf_attr_token_create =
    struct Packing.natural (member "flags" (scalar u32) ⨾ member "bpffs_fd" (scalar u32) ⨾ end)

abbrev pub bpf_attr_prog_stream_read : Ctype
bpf_attr_prog_stream_read = struct Packing.natural (
    member "stream_buf" (scalar u64)
    ⨾ member "stream_buf_len" (scalar u32)
    ⨾ member "stream_id" (scalar u32)
    ⨾ member "prog_fd" (scalar u32)
    ⨾ end)

abbrev pub bpf_attr : Ctype
bpf_attr = union (
    embed bpf_attr_map_create
    ⨾ embed bpf_attr_map_elem
    ⨾ member "batch" bpf_attr_batch
    ⨾ embed bpf_attr_prog_load
    ⨾ embed bpf_attr_obj
    ⨾ embed bpf_attr_prog_attach
    ⨾ member "test" bpf_attr_test
    ⨾ embed bpf_attr_get_id
    ⨾ member "info" bpf_attr_info
    ⨾ member "query" bpf_attr_query
    ⨾ member "raw_tracepoint" bpf_attr_raw_tracepoint
    ⨾ embed bpf_attr_btf_load
    ⨾ member "task_fd_query" bpf_attr_task_fd_query
    ⨾ member "link_create" bpf_attr_link_create
    ⨾ member "link_update" bpf_attr_link_update
    ⨾ member "link_detach" bpf_attr_link_detach
    ⨾ member "enable_stats" bpf_attr_enable_stats
    ⨾ member "iter_create" bpf_attr_iter_create
    ⨾ member "prog_bind_map" bpf_attr_prog_bind_map
    ⨾ member "token_create" bpf_attr_token_create
    ⨾ member "prog_stream_read" bpf_attr_prog_stream_read
    ⨾ end)
