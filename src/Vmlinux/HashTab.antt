-- ===== src/Vmlinux/HashTab.antt =====
-- The hash table of the kernel and its entries.
use container_lb.Layout.{
  Ctype, scalar, pointer, array, struct, union, member, padding, embed, end, ◌⨾◌, Packing, Scalar,
}
use container_lb.Vmlinux.Kernel.{atomic_t, list_head, raw_spinlock_t, rqspinlock_t, work_struct}
use container_lb.Vmlinux.Maps.{bpf_map}
use container_lb.Vmlinux.Scalars.{bool, s64, u16, u32, u8}

abbrev pub percpu_counter : Ctype
percpu_counter = struct Packing.natural (
    member "lock" raw_spinlock_t
    ⨾ member "count" (scalar s64)
    ⨾ member "list" list_head
    ⨾ member "counters" (pointer "s32")
    ⨾ end)

abbrev pub bpf_mem_alloc : Ctype
bpf_mem_alloc = struct Packing.natural (
    member "caches" (pointer "struct bpf_mem_caches")
    ⨾ member "cache" (pointer "struct bpf_mem_cache")
    ⨾ member "objcg" (pointer "struct obj_cgroup")
    ⨾ member "percpu" (scalar bool)
    ⨾ member "work" work_struct
    ⨾ end)

abbrev pub pcpu_freelist : Ctype
pcpu_freelist =
    struct Packing.natural (member "freelist" (pointer "struct pcpu_freelist_head") ⨾ end)

abbrev pub bpf_lru_list : Ctype
bpf_lru_list = struct Packing.natural (
    member "lists" (array list_head 3)
    ⨾ member "counts" (array (scalar Scalar.unsigned_int) 2)
    ⨾ member "next_inactive_rotation" (pointer "struct list_head")
    ⨾ member "lock" raw_spinlock_t
    ⨾ padding Scalar.long 64
    ⨾ padding Scalar.long 64
    ⨾ padding Scalar.long 64
    ⨾ padding Scalar.long 64
    ⨾ padding Scalar.long 64
    ⨾ padding Scalar.long 64
    ⨾ padding Scalar.long 64
    ⨾ end)

abbrev pub bpf_common_lru : Ctype
bpf_common_lru = struct Packing.natural (
    member "lru_list" bpf_lru_list
    ⨾ member "local_list" (pointer "struct bpf_lru_locallist")
    ⨾ padding Scalar.long 64
    ⨾ padding Scalar.long 64
    ⨾ padding Scalar.long 64
    ⨾ padding Scalar.long 64
    ⨾ padding Scalar.long 64
    ⨾ padding Scalar.long 64
    ⨾ padding Scalar.long 64
    ⨾ end)

abbrev pub del_from_htab_func : Ctype
del_from_htab_func = pointer "bool (void *, struct bpf_lru_node *)"

abbrev pub bpf_lru : Ctype
bpf_lru = struct Packing.natural (
    embed (
      union (
        member "common_lru" bpf_common_lru
        ⨾ member "percpu_lru" (pointer "struct bpf_lru_list")
        ⨾ end))
    ⨾ member "del_from_htab" del_from_htab_func
    ⨾ member "del_arg" (pointer "void")
    ⨾ member "hash_offset" (scalar Scalar.unsigned_int)
    ⨾ member "target_free" (scalar Scalar.unsigned_int)
    ⨾ member "nr_scans" (scalar Scalar.unsigned_int)
    ⨾ member "percpu" (scalar bool)
    ⨾ padding Scalar.long 64
    ⨾ padding Scalar.long 64
    ⨾ padding Scalar.long 64
    ⨾ padding Scalar.long 64
    ⨾ end)

abbrev pub bpf_htab : Ctype
bpf_htab = struct Packing.natural (
    member "map" bpf_map
    ⨾ member "ma" bpf_mem_alloc
    ⨾ member "pcpu_ma" bpf_mem_alloc
    ⨾ member "buckets" (pointer "struct bucket")
    ⨾ member "elems" (pointer "void")
    ⨾ padding Scalar.long 64
    ⨾ padding Scalar.long 64
    ⨾ embed (union (member "freelist" pcpu_freelist ⨾ member "lru" bpf_lru ⨾ end))
    ⨾ member "extra_elems" (pointer "struct htab_elem *")
    ⨾ member "pcount" percpu_counter
    ⨾ member "count" atomic_t
    ⨾ member "use_percpu_counter" (scalar bool)
    ⨾ member "n_buckets" (scalar u32)
    ⨾ member "elem_size" (scalar u32)
    ⨾ member "hashrnd" (scalar u32)
    ⨾ padding Scalar.long 64
    ⨾ padding Scalar.long 64
    ⨾ padding Scalar.long 64
    ⨾ padding Scalar.long 64
    ⨾ padding Scalar.long 64
    ⨾ padding Scalar.long 64
    ⨾ padding Scalar.long 64
    ⨾ end)

abbrev pub hlist_nulls_head : Ctype
hlist_nulls_head = struct Packing.natural (member "first" (pointer "struct hlist_nulls_node") ⨾ end)

abbrev pub bucket : Ctype
bucket =
    struct Packing.natural (member "head" hlist_nulls_head ⨾ member "raw_lock" rqspinlock_t ⨾ end)

abbrev pub hlist_nulls_node : Ctype
hlist_nulls_node = struct Packing.natural (
    member "next" (pointer "struct hlist_nulls_node")
    ⨾ member "pprev" (pointer "struct hlist_nulls_node *")
    ⨾ end)

abbrev pub pcpu_freelist_node : Ctype
pcpu_freelist_node =
    struct Packing.natural (member "next" (pointer "struct pcpu_freelist_node") ⨾ end)

abbrev pub bpf_lru_node : Ctype
bpf_lru_node = struct Packing.natural (
    member "list" list_head
    ⨾ member "cpu" (scalar u16)
    ⨾ member "type" (scalar u8)
    ⨾ member "ref" (scalar u8)
    ⨾ end)

abbrev pub htab_elem : Ctype
htab_elem = struct Packing.natural (
    embed (
      union (
        member "hash_node" hlist_nulls_node
        ⨾ embed (
            struct Packing.natural (
              member "padding" (pointer "void")
              ⨾ embed (
                  union (
                    member "fnode" pcpu_freelist_node
                    ⨾ member "batch_flink" (pointer "struct htab_elem")
                    ⨾ end))
              ⨾ end))
        ⨾ end))
    ⨾ embed (union (member "ptr_to_pptr" (pointer "void") ⨾ member "lru_node" bpf_lru_node ⨾ end))
    ⨾ member "hash" (scalar u32)
    ⨾ padding Scalar.long 0
    ⨾ member "key" (array (scalar Scalar.char) 0)
    ⨾ end)
