-- ===== src/Vmlinux/Maps.antt =====
-- The maps of the kernel: an array (also for each CPU) and a hash table.
use container_lb.Layout.{
  Ctype, scalar, pointer, enumeration, array, struct, union, member, embed, end, ◌⨾◌, Packing,
  Scalar,
}
use container_lb.Vmlinux.Kernel.{atomic64_t, callback_head, mutex, spinlock_t, work_struct}
use container_lb.Vmlinux.Scalars.{bool, u32, u64, u8}

abbrev pub bpf_map : Ctype
bpf_map = struct Packing.natural (
    member "sha" (array (scalar u8) 32)
    ⨾ member "ops" (pointer "const struct bpf_map_ops")
    ⨾ member "inner_map_meta" (pointer "struct bpf_map")
    ⨾ member "security" (pointer "void")
    ⨾ member "map_type" (enumeration "bpf_map_type")
    ⨾ member "key_size" (scalar u32)
    ⨾ member "value_size" (scalar u32)
    ⨾ member "max_entries" (scalar u32)
    ⨾ member "map_extra" (scalar u64)
    ⨾ member "map_flags" (scalar u32)
    ⨾ member "id" (scalar u32)
    ⨾ member "record" (pointer "struct btf_record")
    ⨾ member "numa_node" (scalar Scalar.int)
    ⨾ member "btf_key_type_id" (scalar u32)
    ⨾ member "btf_value_type_id" (scalar u32)
    ⨾ member "btf_vmlinux_value_type_id" (scalar u32)
    ⨾ member "btf" (pointer "struct btf")
    ⨾ member "objcg" (pointer "struct obj_cgroup")
    ⨾ member "name" (array (scalar Scalar.char) 16)
    ⨾ member "freeze_mutex" mutex
    ⨾ member "refcnt" atomic64_t
    ⨾ member "usercnt" atomic64_t
    ⨾ embed (union (member "work" work_struct ⨾ member "rcu" callback_head ⨾ end))
    ⨾ member "writecnt" atomic64_t
    ⨾ member "owner_lock" spinlock_t
    ⨾ member "owner" (pointer "struct bpf_map_owner")
    ⨾ member "bypass_spec_v1" (scalar bool)
    ⨾ member "frozen" (scalar bool)
    ⨾ member "free_after_mult_rcu_gp" (scalar bool)
    ⨾ member "free_after_rcu_gp" (scalar bool)
    ⨾ member "sleepable_refcnt" atomic64_t
    ⨾ member "elem_count" (pointer "s64")
    ⨾ member "cookie" (scalar u64)
    ⨾ member "excl_prog_sha" (pointer "char")
    ⨾ end)

abbrev pub bpf_array : Ctype
bpf_array = struct Packing.natural (
    member "map" bpf_map
    ⨾ member "elem_size" (scalar u32)
    ⨾ member "index_mask" (scalar u32)
    ⨾ member "aux" (pointer "struct bpf_array_aux")
    ⨾ embed (
        union (
          embed (
            struct Packing.natural (
              member "__empty_value" (struct Packing.natural end)
              ⨾ member "value" (array (scalar Scalar.char) 0)
              ⨾ end))
          ⨾ embed (
              struct Packing.natural (
                member "__empty_ptrs" (struct Packing.natural end)
                ⨾ member "ptrs" (array (pointer "void") 0)
                ⨾ end))
          ⨾ embed (
              struct Packing.natural (
                member "__empty_pptrs" (struct Packing.natural end)
                ⨾ member "pptrs" (array (pointer "void") 0)
                ⨾ end))
          ⨾ end))
    ⨾ end)
