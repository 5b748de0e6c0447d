-- ===== src/Vmlinux/Btf.antt =====
-- The type information from which maps are declared and loaded.
use container_lb.Layout.{
  Ctype, scalar, pointer, enumeration, array, struct, union, member, embed, end, ◌⨾◌, Packing,
  Scalar,
}
use container_lb.Vmlinux.Kernel.{btf_field_graph_root, btf_field_kptr, callback_head, refcount_t}
use container_lb.Vmlinux.Scalars.{bool, s32, u16, u32, u8}

abbrev pub btf_header : Ctype
btf_header = struct Packing.natural (
    member "magic" (scalar u16)
    ⨾ member "version" (scalar u8)
    ⨾ member "flags" (scalar u8)
    ⨾ member "hdr_len" (scalar u32)
    ⨾ member "type_off" (scalar u32)
    ⨾ member "type_len" (scalar u32)
    ⨾ member "str_off" (scalar u32)
    ⨾ member "str_len" (scalar u32)
    ⨾ end)

abbrev pub btf_type : Ctype
btf_type = struct Packing.natural (
    member "name_off" (scalar u32)
    ⨾ member "info" (scalar u32)
    ⨾ embed (union (member "size" (scalar u32) ⨾ member "type" (scalar u32) ⨾ end))
    ⨾ end)

abbrev pub btf_member : Ctype
btf_member = struct Packing.natural (
    member "name_off" (scalar u32)
    ⨾ member "type" (scalar u32)
    ⨾ member "offset" (scalar u32)
    ⨾ end)

abbrev pub btf_array : Ctype
btf_array = struct Packing.natural (
    member "type" (scalar u32)
    ⨾ member "index_type" (scalar u32)
    ⨾ member "nelems" (scalar u32)
    ⨾ end)

abbrev pub btf_enum : Ctype
btf_enum = struct Packing.natural (member "name_off" (scalar u32) ⨾ member "val" (scalar s32) ⨾ end)

abbrev pub btf_enum64 : Ctype
btf_enum64 = struct Packing.natural (
    member "name_off" (scalar u32)
    ⨾ member "val_lo32" (scalar u32)
    ⨾ member "val_hi32" (scalar u32)
    ⨾ end)

abbrev pub btf_param : Ctype
btf_param =
    struct Packing.natural (member "name_off" (scalar u32) ⨾ member "type" (scalar u32) ⨾ end)

abbrev pub btf_var : Ctype
btf_var = struct Packing.natural (member "linkage" (scalar u32) ⨾ end)

abbrev pub btf_var_secinfo : Ctype
btf_var_secinfo =
    struct Packing.natural
      (member "type" (scalar u32) ⨾ member "offset" (scalar u32) ⨾ member "size" (scalar u32) ⨾ end)

abbrev pub btf_decl_tag : Ctype
btf_decl_tag = struct Packing.natural (member "component_idx" (scalar s32) ⨾ end)

abbrev pub bpf_func_info : Ctype
bpf_func_info =
    struct Packing.natural (member "insn_off" (scalar u32) ⨾ member "type_id" (scalar u32) ⨾ end)

abbrev pub bpf_line_info : Ctype
bpf_line_info = struct Packing.natural (
    member "insn_off" (scalar u32)
    ⨾ member "file_name_off" (scalar u32)
    ⨾ member "line_off" (scalar u32)
    ⨾ member "line_col" (scalar u32)
    ⨾ end)

abbrev pub btf : Ctype
btf = struct Packing.natural (
    member "data" (pointer "void")
    ⨾ member "types" (pointer "struct btf_type *")
    ⨾ member "resolved_ids" (pointer "u32")
    ⨾ member "resolved_sizes" (pointer "u32")
    ⨾ member "strings" (pointer "const char")
    ⨾ member "nohdr_data" (pointer "void")
    ⨾ member "hdr" btf_header
    ⨾ member "nr_types" (scalar u32)
    ⨾ member "types_size" (scalar u32)
    ⨾ member "data_size" (scalar u32)
    ⨾ member "refcnt" refcount_t
    ⨾ member "id" (scalar u32)
    ⨾ member "rcu" callback_head
    ⨾ member "kfunc_set_tab" (pointer "struct btf_kfunc_set_tab")
    ⨾ member "dtor_kfunc_tab" (pointer "struct btf_id_dtor_kfunc_tab")
    ⨾ member "struct_meta_tab" (pointer "struct btf_struct_metas")
    ⨾ member "struct_ops_tab" (pointer "struct btf_struct_ops_tab")
    ⨾ member "base_btf" (pointer "struct btf")
    ⨾ member "start_id" (scalar u32)
    ⨾ member "start_str_off" (scalar u32)
    ⨾ member "name" (array (scalar Scalar.char) 56)
    ⨾ member "kernel_btf" (scalar bool)
    ⨾ member "base_id_map" (pointer "__u32")
    ⨾ end)

abbrev pub btf_field : Ctype
btf_field = struct Packing.natural (
    member "offset" (scalar u32)
    ⨾ member "size" (scalar u32)
    ⨾ member "type" (enumeration "btf_field_type")
    ⨾ embed (union (member "kptr" btf_field_kptr ⨾ member "graph_root" btf_field_graph_root ⨾ end))
    ⨾ end)

abbrev pub btf_record : Ctype
btf_record = struct Packing.natural (
    member "cnt" (scalar u32)
    ⨾ member "field_mask" (scalar u32)
    ⨾ member "spin_lock_off" (scalar Scalar.int)
    ⨾ member "res_spin_lock_off" (scalar Scalar.int)
    ⨾ member "timer_off" (scalar Scalar.int)
    ⨾ member "wq_off" (scalar Scalar.int)
    ⨾ member "refcount_off" (scalar Scalar.int)
    ⨾ member "task_work_off" (scalar Scalar.int)
    ⨾ member "fields" (array btf_field 0)
    ⨾ end)
