-- ===== src/Vmlinux/MapOps.antt =====
-- The operations of a kind of map.
use container_lb.Layout.{Ctype, pointer, struct, member, end, ◌⨾◌, Packing}

abbrev pub bpf_map_ops : Ctype
bpf_map_ops = struct Packing.natural (
    member "map_alloc_check" (pointer "int (union bpf_attr *)")
    ⨾ member "map_alloc" (pointer "struct bpf_map * (union bpf_attr *)")
    ⨾ member "map_release" (pointer "void (struct bpf_map *, struct file *)")
    ⨾ member "map_free" (pointer "void (struct bpf_map *)")
    ⨾ member "map_get_next_key" (pointer "int (struct bpf_map *, void *, void *)")
    ⨾ member "map_release_uref" (pointer "void (struct bpf_map *)")
    ⨾ member "map_lookup_elem_sys_only" (pointer "void * (struct bpf_map *, void *)")
    ⨾ member "map_lookup_batch"
        (pointer "int (struct bpf_map *, const union bpf_attr *, union bpf_attr *)")
    ⨾ member "map_lookup_and_delete_elem" (pointer "int (struct bpf_map *, void *, void *, u64)")
    ⨾ member "map_lookup_and_delete_batch"
        (pointer "int (struct bpf_map *, const union bpf_attr *, union bpf_attr *)")
    ⨾ member "map_update_batch"
        (pointer "int (struct bpf_map *, struct file *, const union bpf_attr *, union bpf_attr *)")
    ⨾ member "map_delete_batch"
        (pointer "int (struct bpf_map *, const union bpf_attr *, union bpf_attr *)")
    ⨾ member "map_lookup_elem" (pointer "void * (struct bpf_map *, void *)")
    ⨾ member "map_update_elem" (pointer "long int (struct bpf_map *, void *, void *, u64)")
    ⨾ member "map_delete_elem" (pointer "long int (struct bpf_map *, void *)")
    ⨾ member "map_push_elem" (pointer "long int (struct bpf_map *, void *, u64)")
    ⨾ member "map_pop_elem" (pointer "long int (struct bpf_map *, void *)")
    ⨾ member "map_peek_elem" (pointer "long int (struct bpf_map *, void *)")
    ⨾ member "map_lookup_percpu_elem" (pointer "void * (struct bpf_map *, void *, u32)")
    ⨾ member "map_get_hash" (pointer "int (struct bpf_map *, u32, void *)")
    ⨾ member "map_fd_get_ptr" (pointer "void * (struct bpf_map *, struct file *, int)")
    ⨾ member "map_fd_put_ptr" (pointer "void (struct bpf_map *, void *, bool)")
    ⨾ member "map_gen_lookup" (pointer "int (struct bpf_map *, struct bpf_insn *)")
    ⨾ member "map_fd_sys_lookup_elem" (pointer "u32 (void *)")
    ⨾ member "map_seq_show_elem" (pointer "void (struct bpf_map *, void *, struct seq_file *)")
    ⨾ member "map_check_btf" (
        pointer
          "int (const struct bpf_map *, const struct btf *, const struct btf_type *, const struct btf_type *)")
    ⨾ member "map_poke_track" (pointer "int (struct bpf_map *, struct bpf_prog_aux *)")
    ⨾ member "map_poke_untrack" (pointer "void (struct bpf_map *, struct bpf_prog_aux *)")
    ⨾ member "map_poke_run"
        (pointer "void (struct bpf_map *, u32, struct bpf_prog *, struct bpf_prog *)")
    ⨾ member "map_direct_value_addr" (pointer "int (const struct bpf_map *, u64 *, u32)")
    ⨾ member "map_direct_value_meta" (pointer "int (const struct bpf_map *, u64, u32 *)")
    ⨾ member "map_mmap" (pointer "int (struct bpf_map *, struct vm_area_struct *)")
    ⨾ member "map_poll"
        (pointer "__poll_t (struct bpf_map *, struct file *, struct poll_table_struct *)")
    ⨾ member "map_get_unmapped_area" (
        pointer
          "long unsigned int (struct file *, long unsigned int, long unsigned int, long unsigned int, long unsigned int)")
    ⨾ member "map_local_storage_charge"
        (pointer "int (struct bpf_local_storage_map *, void *, u32)")
    ⨾ member "map_local_storage_uncharge"
        (pointer "void (struct bpf_local_storage_map *, void *, u32)")
    ⨾ member "map_owner_storage_ptr" (pointer "struct bpf_local_storage ** (void *)")
    ⨾ member "map_redirect" (pointer "long int (struct bpf_map *, u64, u64)")
    ⨾ member "map_meta_equal" (pointer "bool (const struct bpf_map *, const struct bpf_map *)")
    ⨾ member "map_set_for_each_callback_args" (
        pointer "int (struct bpf_verifier_env *, struct bpf_func_state *, struct bpf_func_state *)")
    ⨾ member "map_for_each_callback"
        (pointer "long int (struct bpf_map *, bpf_callback_t, void *, u64)")
    ⨾ member "map_mem_usage" (pointer "u64 (const struct bpf_map *)")
    ⨾ member "map_btf_id" (pointer "int")
    ⨾ member "iter_seq_info" (pointer "const struct bpf_iter_seq_info")
    ⨾ end)
