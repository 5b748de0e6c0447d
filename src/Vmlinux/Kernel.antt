-- ===== src/Vmlinux/Kernel.antt =====
-- Structures of the kernel that others hold: counters, lists, locks and deferred work.
use container_lb.Layout.{
  Ctype, scalar, pointer, struct, union, member, embed, end, ◌⨾◌, Packing, Scalar,
}
use container_lb.Vmlinux.Scalars.{s64, u16, u32, u8}

abbrev pub list_head : Ctype
list_head =
    struct Packing.natural (
      member "next" (pointer "struct list_head") ⨾ member "prev" (pointer "struct list_head") ⨾ end)

abbrev pub local_lock_t : Ctype
local_lock_t = struct Packing.natural end

abbrev pub atomic_t : Ctype
atomic_t = struct Packing.natural (member "counter" (scalar Scalar.int) ⨾ end)

abbrev pub atomic64_t : Ctype
atomic64_t = struct Packing.natural (member "counter" (scalar s64) ⨾ end)

abbrev pub callback_head : Ctype
callback_head = struct Packing.natural (
    member "next" (pointer "struct callback_head")
    ⨾ member "func" (pointer "void (struct callback_head *)")
    ⨾ end)

abbrev pub atomic_long_t : Ctype
atomic_long_t = atomic64_t

abbrev pub qspinlock : Ctype
qspinlock = struct Packing.natural (
    embed (
      union (
        member "val" atomic_t
        ⨾ embed (
            struct Packing.natural
              (member "locked" (scalar u8) ⨾ member "pending" (scalar u8) ⨾ end))
        ⨾ embed (
            struct Packing.natural
              (member "locked_pending" (scalar u16) ⨾ member "tail" (scalar u16) ⨾ end))
        ⨾ end))
    ⨾ end)

abbrev pub arch_spinlock_t : Ctype
arch_spinlock_t = qspinlock

abbrev pub raw_spinlock : Ctype
raw_spinlock = struct Packing.natural (member "raw_lock" arch_spinlock_t ⨾ end)

abbrev pub raw_spinlock_t : Ctype
raw_spinlock_t = raw_spinlock

abbrev pub optimistic_spin_queue : Ctype
optimistic_spin_queue = struct Packing.natural (member "tail" atomic_t ⨾ end)

abbrev pub mutex : Ctype
mutex = struct Packing.natural (
    member "owner" atomic_long_t
    ⨾ member "wait_lock" raw_spinlock_t
    ⨾ member "osq" optimistic_spin_queue
    ⨾ member "wait_list" list_head
    ⨾ end)

abbrev pub spinlock : Ctype
spinlock = struct Packing.natural (embed (union (member "rlock" raw_spinlock ⨾ end)) ⨾ end)

abbrev pub spinlock_t : Ctype
spinlock_t = spinlock

abbrev pub work_func_t : Ctype
work_func_t = pointer "void (struct work_struct *)"

abbrev pub work_struct : Ctype
work_struct =
    struct Packing.natural
      (member "data" atomic_long_t ⨾ member "entry" list_head ⨾ member "func" work_func_t ⨾ end)

abbrev pub rqspinlock_t : Ctype
rqspinlock_t = qspinlock

abbrev pub rb_node : Ctype
rb_node = struct Packing.natural (
    member "__rb_parent_color" (scalar Scalar.unsigned_long)
    ⨾ member "rb_right" (pointer "struct rb_node")
    ⨾ member "rb_left" (pointer "struct rb_node")
    ⨾ end)

abbrev pub llist_head : Ctype
llist_head = struct Packing.natural (member "first" (pointer "struct llist_node") ⨾ end)

abbrev pub refcount_struct : Ctype
refcount_struct = struct Packing.natural (member "refs" atomic_t ⨾ end)

abbrev pub refcount_t : Ctype
refcount_t = refcount_struct

abbrev pub btf_dtor_kfunc_t : Ctype
btf_dtor_kfunc_t = pointer "void (void *)"

abbrev pub btf_field_kptr : Ctype
btf_field_kptr = struct Packing.natural (
    member "btf" (pointer "struct btf")
    ⨾ member "module" (pointer "struct module")
    ⨾ member "dtor" btf_dtor_kfunc_t
    ⨾ member "btf_id" (scalar u32)
    ⨾ end)

abbrev pub btf_field_graph_root : Ctype
btf_field_graph_root = struct Packing.natural (
    member "btf" (pointer "struct btf")
    ⨾ member "value_btf_id" (scalar u32)
    ⨾ member "node_offset" (scalar u32)
    ⨾ member "value_rec" (pointer "struct btf_record")
    ⨾ end)
