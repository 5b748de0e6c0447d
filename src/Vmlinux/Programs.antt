-- ===== src/Vmlinux/Programs.antt =====
-- A loaded program, and the link that attaches it to an interface.
use container_lb.Layout.{
  Ctype, scalar, pointer, enumeration, array, struct, union, member, bits, embed, end, ◌⨾◌, Packing,
  Scalar,
}
use container_lb.Vmlinux.Kernel.{
  atomic64_t, atomic_t, callback_head, list_head, llist_head, mutex, rb_node, work_struct,
}
use container_lb.Vmlinux.Scalars.{bool, s16, s32, u16, u32, u64, u8}

abbrev pub bpf_insn : Ctype
bpf_insn = struct Packing.natural (
    member "code" (scalar u8)
    ⨾ bits "dst_reg" u8 4
    ⨾ bits "src_reg" u8 4
    ⨾ member "off" (scalar s16)
    ⨾ member "imm" (scalar s32)
    ⨾ end)

abbrev pub sock_filter : Ctype
sock_filter = struct Packing.natural (
    member "code" (scalar u16)
    ⨾ member "jt" (scalar u8)
    ⨾ member "jf" (scalar u8)
    ⨾ member "k" (scalar u32)
    ⨾ end)

abbrev pub bpf_prog : Ctype
bpf_prog = struct Packing.natural (
    member "pages" (scalar u16)
    ⨾ bits "jited" u16 1
    ⨾ bits "jit_requested" u16 1
    ⨾ bits "gpl_compatible" u16 1
    ⨾ bits "cb_access" u16 1
    ⨾ bits "dst_needed" u16 1
    ⨾ bits "blinding_requested" u16 1
    ⨾ bits "blinded" u16 1
    ⨾ bits "is_func" u16 1
    ⨾ bits "kprobe_override" u16 1
    ⨾ bits "has_callchain_buf" u16 1
    ⨾ bits "enforce_expected_attach_type" u16 1
    ⨾ bits "call_get_stack" u16 1
    ⨾ bits "call_get_func_ip" u16 1
    ⨾ bits "tstamp_type_access" u16 1
    ⨾ bits "sleepable" u16 1
    ⨾ member "type" (enumeration "bpf_prog_type")
    ⨾ member "expected_attach_type" (enumeration "bpf_attach_type")
    ⨾ member "len" (scalar u32)
    ⨾ member "jited_len" (scalar u32)
    ⨾ embed
        (union (member "digest" (array (scalar u8) 32) ⨾ member "tag" (array (scalar u8) 8) ⨾ end))
    ⨾ member "stats" (pointer "struct bpf_prog_stats")
    ⨾ member "active" (pointer "int")
    ⨾ member "bpf_func" (pointer "unsigned int (const void *, const struct bpf_insn *)")
    ⨾ member "aux" (pointer "struct bpf_prog_aux")
    ⨾ member "orig_prog" (pointer "struct sock_fprog_kern")
    ⨾ embed (
        union (
          embed (
            struct Packing.natural (
              member "__empty_insns" (struct Packing.natural end)
              ⨾ member "insns" (array sock_filter 0)
              ⨾ end))
          ⨾ embed (
              struct Packing.natural (
                member "__empty_insnsi" (struct Packing.natural end)
                ⨾ member "insnsi" (array bpf_insn 0)
                ⨾ end))
          ⨾ end))
    ⨾ end)

abbrev pub latch_tree_node : Ctype
latch_tree_node = struct Packing.natural (member "node" (array rb_node 2) ⨾ end)

abbrev pub bpf_ksym : Ctype
bpf_ksym = struct Packing.natural (
    member "start" (scalar Scalar.unsigned_long)
    ⨾ member "end" (scalar Scalar.unsigned_long)
    ⨾ member "name" (array (scalar Scalar.char) 512)
    ⨾ member "lnode" list_head
    ⨾ member "tnode" latch_tree_node
    ⨾ member "prog" (scalar bool)
    ⨾ end)

abbrev pub bpf_stream : Ctype
bpf_stream = struct Packing.natural (
    member "capacity" atomic_t
    ⨾ member "log" llist_head
    ⨾ member "lock" mutex
    ⨾ member "backlog_head" (pointer "struct llist_node")
    ⨾ member "backlog_tail" (pointer "struct llist_node")
    ⨾ end)

abbrev pub bpf_prog_aux : Ctype
bpf_prog_aux = struct Packing.natural (
    member "refcnt" atomic64_t
    ⨾ member "used_map_cnt" (scalar u32)
    ⨾ member "used_btf_cnt" (scalar u32)
    ⨾ member "max_ctx_offset" (scalar u32)
    ⨾ member "max_pkt_offset" (scalar u32)
    ⨾ member "max_tp_access" (scalar u32)
    ⨾ member "stack_depth" (scalar u32)
    ⨾ member "id" (scalar u32)
    ⨾ member "func_cnt" (scalar u32)
    ⨾ member "real_func_cnt" (scalar u32)
    ⨾ member "func_idx" (scalar u32)
    ⨾ member "attach_btf_id" (scalar u32)
    ⨾ member "attach_st_ops_member_off" (scalar u32)
    ⨾ member "ctx_arg_info_size" (scalar u32)
    ⨾ member "max_rdonly_access" (scalar u32)
    ⨾ member "max_rdwr_access" (scalar u32)
    ⨾ member "attach_btf" (pointer "struct btf")
    ⨾ member "ctx_arg_info" (pointer "struct bpf_ctx_arg_aux")
    ⨾ member "priv_stack_ptr" (pointer "void")
    ⨾ member "dst_mutex" mutex
    ⨾ member "dst_prog" (pointer "struct bpf_prog")
    ⨾ member "dst_trampoline" (pointer "struct bpf_trampoline")
    ⨾ member "saved_dst_prog_type" (enumeration "bpf_prog_type")
    ⨾ member "saved_dst_attach_type" (enumeration "bpf_attach_type")
    ⨾ member "verifier_zext" (scalar bool)
    ⨾ member "dev_bound" (scalar bool)
    ⨾ member "offload_requested" (scalar bool)
    ⨾ member "attach_btf_trace" (scalar bool)
    ⨾ member "attach_tracing_prog" (scalar bool)
    ⨾ member "func_proto_unreliable" (scalar bool)
    ⨾ member "tail_call_reachable" (scalar bool)
    ⨾ member "xdp_has_frags" (scalar bool)
    ⨾ member "exception_cb" (scalar bool)
    ⨾ member "exception_boundary" (scalar bool)
    ⨾ member "is_extended" (scalar bool)
    ⨾ member "jits_use_priv_stack" (scalar bool)
    ⨾ member "priv_stack_requested" (scalar bool)
    ⨾ member "changes_pkt_data" (scalar bool)
    ⨾ member "might_sleep" (scalar bool)
    ⨾ member "kprobe_write_ctx" (scalar bool)
    ⨾ member "prog_array_member_cnt" (scalar u64)
    ⨾ member "ext_mutex" mutex
    ⨾ member "arena" (pointer "struct bpf_arena")
    ⨾ member "recursion_detected" (pointer "void (struct bpf_prog *)")
    ⨾ member "attach_func_proto" (pointer "const struct btf_type")
    ⨾ member "attach_func_name" (pointer "const char")
    ⨾ member "func" (pointer "struct bpf_prog *")
    ⨾ member "main_prog_aux" (pointer "struct bpf_prog_aux")
    ⨾ member "jit_data" (pointer "void")
    ⨾ member "poke_tab" (pointer "struct bpf_jit_poke_descriptor")
    ⨾ member "kfunc_tab" (pointer "struct bpf_kfunc_desc_tab")
    ⨾ member "kfunc_btf_tab" (pointer "struct bpf_kfunc_btf_tab")
    ⨾ member "size_poke_tab" (scalar u32)
    ⨾ member "ksym" bpf_ksym
    ⨾ member "ops" (pointer "const struct bpf_prog_ops")
    ⨾ member "st_ops" (pointer "const struct bpf_struct_ops")
    ⨾ member "used_maps" (pointer "struct bpf_map *")
    ⨾ member "used_maps_mutex" mutex
    ⨾ member "used_btfs" (pointer "struct btf_mod_pair")
    ⨾ member "prog" (pointer "struct bpf_prog")
    ⨾ member "user" (pointer "struct user_struct")
    ⨾ member "load_time" (scalar u64)
    ⨾ member "verified_insns" (scalar u32)
    ⨾ member "cgroup_atype" (scalar Scalar.int)
    ⨾ member "cgroup_storage" (array (pointer "struct bpf_map") 2)
    ⨾ member "name" (array (scalar Scalar.char) 16)
    ⨾ member "bpf_exception_cb" (pointer "u64 (u64, u64, u64, u64, u64)")
    ⨾ member "security" (pointer "void")
    ⨾ member "token" (pointer "struct bpf_token")
    ⨾ member "offload" (pointer "struct bpf_prog_offload")
    ⨾ member "btf" (pointer "struct btf")
    ⨾ member "func_info" (pointer "struct bpf_func_info")
    ⨾ member "func_info_aux" (pointer "struct bpf_func_info_aux")
    ⨾ member "linfo" (pointer "struct bpf_line_info")
    ⨾ member "jited_linfo" (pointer "void *")
    ⨾ member "func_info_cnt" (scalar u32)
    ⨾ member "nr_linfo" (scalar u32)
    ⨾ member "linfo_idx" (scalar u32)
    ⨾ member "mod" (pointer "struct module")
    ⨾ member "num_exentries" (scalar u32)
    ⨾ member "extable" (pointer "struct exception_table_entry")
    ⨾ embed (union (member "work" work_struct ⨾ member "rcu" callback_head ⨾ end))
    ⨾ member "stream" (array bpf_stream 2)
    ⨾ end)
