-- ===== src/Vmlinux/AttrObjects.antt =====
-- The arguments of the first commands of the system call `bpf`, of kernelspace/vmlinux.h.
use container_lb.Layout.{
  Ctype, scalar, array, struct, union, member, embed, end, ◌⨾◌, Packing, Scalar,
}
use container_lb.Vmlinux.Scalars.{s32, u32, u64}

abbrev pub bpf_attr_map_create : Ctype
bpf_attr_map_create = struct Packing.natural (
    member "map_type" (scalar u32)
    ⨾ member "key_size" (scalar u32)
    ⨾ member "value_size" (scalar u32)
    ⨾ member "max_entries" (scalar u32)
    ⨾ member "map_flags" (scalar u32)
    ⨾ member "inner_map_fd" (scalar u32)
    ⨾ member "numa_node" (scalar u32)
    ⨾ member "map_name" (array (scalar Scalar.char) 16)
    ⨾ member "map_ifindex" (scalar u32)
    ⨾ member "btf_fd" (scalar u32)
    ⨾ member "btf_key_type_id" (scalar u32)
    ⨾ member "btf_value_type_id" (scalar u32)
    ⨾ member "btf_vmlinux_value_type_id" (scalar u32)
    ⨾ member "map_extra" (scalar u64)
    ⨾ member "value_type_btf_obj_fd" (scalar s32)
    ⨾ member "map_token_fd" (scalar s32)
    ⨾ member "excl_prog_hash" (scalar u64)
    ⨾ member "excl_prog_hash_size" (scalar u32)
    ⨾ end)

abbrev pub bpf_attr_map_elem : Ctype
bpf_attr_map_elem = struct Packing.natural (
    member "map_fd" (scalar u32)
    ⨾ member "key" (scalar u64)
    ⨾ embed (union (member "value" (scalar u64) ⨾ member "next_key" (scalar u64) ⨾ end))
    ⨾ member "flags" (scalar u64)
    ⨾ end)

abbrev pub bpf_attr_batch : Ctype
bpf_attr_batch = struct Packing.natural (
    member "in_batch" (scalar u64)
    ⨾ member "out_batch" (scalar u64)
    ⨾ member "keys" (scalar u64)
    ⨾ member "values" (scalar u64)
    ⨾ member "count" (scalar u32)
    ⨾ member "map_fd" (scalar u32)
    ⨾ member "elem_flags" (scalar u64)
    ⨾ member "flags" (scalar u64)
    ⨾ end)

abbrev pub bpf_attr_prog_load : Ctype
bpf_attr_prog_load = struct Packing.natural (
    member "prog_type" (scalar u32)
    ⨾ member "insn_cnt" (scalar u32)
    ⨾ member "insns" (scalar u64)
    ⨾ member "license" (scalar u64)
    ⨾ member "log_level" (scalar u32)
    ⨾ member "log_size" (scalar u32)
    ⨾ member "log_buf" (scalar u64)
    ⨾ member "kern_version" (scalar u32)
    ⨾ member "prog_flags" (scalar u32)
    ⨾ member "prog_name" (array (scalar Scalar.char) 16)
    ⨾ member "prog_ifindex" (scalar u32)
    ⨾ member "expected_attach_type" (scalar u32)
    ⨾ member "prog_btf_fd" (scalar u32)
    ⨾ member "func_info_rec_size" (scalar u32)
    ⨾ member "func_info" (scalar u64)
    ⨾ member "func_info_cnt" (scalar u32)
    ⨾ member "line_info_rec_size" (scalar u32)
    ⨾ member "line_info" (scalar u64)
    ⨾ member "line_info_cnt" (scalar u32)
    ⨾ member "attach_btf_id" (scalar u32)
    ⨾ embed (
        union
          (member "attach_prog_fd" (scalar u32) ⨾ member "attach_btf_obj_fd" (scalar u32) ⨾ end))
    ⨾ member "core_relo_cnt" (scalar u32)
    ⨾ member "fd_array" (scalar u64)
    ⨾ member "core_relos" (scalar u64)
    ⨾ member "core_relo_rec_size" (scalar u32)
    ⨾ member "log_true_size" (scalar u32)
    ⨾ member "prog_token_fd" (scalar s32)
    ⨾ member "fd_array_cnt" (scalar u32)
    ⨾ member "signature" (scalar u64)
    ⨾ member "signature_size" (scalar u32)
    ⨾ member "keyring_id" (scalar s32)
    ⨾ end)

abbrev pub bpf_attr_obj : Ctype
bpf_attr_obj = struct Packing.natural (
    member "pathname" (scalar u64)
    ⨾ member "bpf_fd" (scalar u32)
    ⨾ member "file_flags" (scalar u32)
    ⨾ member "path_fd" (scalar s32)
    ⨾ end)

abbrev pub bpf_attr_prog_attach : Ctype
bpf_attr_prog_attach = struct Packing.natural (
    embed (union (member "target_fd" (scalar u32) ⨾ member "target_ifindex" (scalar u32) ⨾ end))
    ⨾ member "attach_bpf_fd" (scalar u32)
    ⨾ member "attach_type" (scalar u32)
    ⨾ member "attach_flags" (scalar u32)
    ⨾ member "replace_bpf_fd" (scalar u32)
    ⨾ embed (union (member "relative_fd" (scalar u32) ⨾ member "relative_id" (scalar u32) ⨾ end))
    ⨾ member "expected_revision" (scalar u64)
    ⨾ end)

abbrev pub bpf_attr_test : Ctype
bpf_attr_test = struct Packing.natural (
    member "prog_fd" (scalar u32)
    ⨾ member "retval" (scalar u32)
    ⨾ member "data_size_in" (scalar u32)
    ⨾ member "data_size_out" (scalar u32)
    ⨾ member "data_in" (scalar u64)
    ⨾ member "data_out" (scalar u64)
    ⨾ member "repeat" (scalar u32)
    ⨾ member "duration" (scalar u32)
    ⨾ member "ctx_size_in" (scalar u32)
    ⨾ member "ctx_size_out" (scalar u32)
    ⨾ member "ctx_in" (scalar u64)
    ⨾ member "ctx_out" (scalar u64)
    ⨾ member "flags" (scalar u32)
    ⨾ member "cpu" (scalar u32)
    ⨾ member "batch_size" (scalar u32)
    ⨾ end)

abbrev pub bpf_attr_get_id : Ctype
bpf_attr_get_id = struct Packing.natural (
    embed (
      union (
        member "start_id" (scalar u32)
        ⨾ member "prog_id" (scalar u32)
        ⨾ member "map_id" (scalar u32)
        ⨾ member "btf_id" (scalar u32)
        ⨾ member "link_id" (scalar u32)
        ⨾ end))
    ⨾ member "next_id" (scalar u32)
    ⨾ member "open_flags" (scalar u32)
    ⨾ member "fd_by_id_token_fd" (scalar s32)
    ⨾ end)

abbrev pub bpf_attr_info : Ctype
bpf_attr_info = struct Packing.natural (
    member "bpf_fd" (scalar u32)
    ⨾ member "info_len" (scalar u32)
    ⨾ member "info" (scalar u64)
    ⨾ end)

abbrev pub bpf_attr_query : Ctype
bpf_attr_query = struct Packing.natural (
    embed (union (member "target_fd" (scalar u32) ⨾ member "target_ifindex" (scalar u32) ⨾ end))
    ⨾ member "attach_type" (scalar u32)
    ⨾ member "query_flags" (scalar u32)
    ⨾ member "attach_flags" (scalar u32)
    ⨾ member "prog_ids" (scalar u64)
    ⨾ embed (union (member "prog_cnt" (scalar u32) ⨾ member "count" (scalar u32) ⨾ end))
    ⨾ member "prog_attach_flags" (scalar u64)
    ⨾ member "link_ids" (scalar u64)
    ⨾ member "link_attach_flags" (scalar u64)
    ⨾ member "revision" (scalar u64)
    ⨾ end)

abbrev pub bpf_attr_raw_tracepoint : Ctype
bpf_attr_raw_tracepoint = struct Packing.natural (
    member "name" (scalar u64) ⨾ member "prog_fd" (scalar u32) ⨾ member "cookie" (scalar u64) ⨾ end)
