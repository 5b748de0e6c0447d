-- ===== src/Vmlinux/Links.antt =====
-- A link that attaches a program to an interface, and the dispatcher of XDP programs.
use container_lb.Layout.{
  Ctype, scalar, pointer, enumeration, array, struct, union, member, embed, end, ◌⨾◌, Packing,
  Scalar,
}
use container_lb.Vmlinux.Kernel.{atomic64_t, callback_head, mutex, refcount_t, work_struct}
use container_lb.Vmlinux.Programs.{bpf_ksym}
use container_lb.Vmlinux.Scalars.{bool, u32}

abbrev pub bpf_link : Ctype
bpf_link = struct Packing.natural (
    member "refcnt" atomic64_t
    ⨾ member "id" (scalar u32)
    ⨾ member "type" (enumeration "bpf_link_type")
    ⨾ member "ops" (pointer "const struct bpf_link_ops")
    ⨾ member "prog" (pointer "struct bpf_prog")
    ⨾ member "flags" (scalar u32)
    ⨾ member "attach_type" (enumeration "bpf_attach_type")
    ⨾ embed (union (member "rcu" callback_head ⨾ member "work" work_struct ⨾ end))
    ⨾ member "sleepable" (scalar bool)
    ⨾ end)

abbrev pub bpf_xdp_link : Ctype
bpf_xdp_link = struct Packing.natural (
    member "link" bpf_link
    ⨾ member "dev" (pointer "struct net_device")
    ⨾ member "flags" (scalar Scalar.int)
    ⨾ end)

abbrev pub bpf_dispatcher_prog : Ctype
bpf_dispatcher_prog =
    struct Packing.natural
      (member "prog" (pointer "struct bpf_prog") ⨾ member "users" refcount_t ⨾ end)

abbrev pub bpf_dispatcher : Ctype
bpf_dispatcher = struct Packing.natural (
    member "mutex" mutex
    ⨾ member "func" (pointer "void")
    ⨾ member "progs" (array bpf_dispatcher_prog 48)
    ⨾ member "num_progs" (scalar Scalar.int)
    ⨾ member "image" (pointer "void")
    ⨾ member "rw_image" (pointer "void")
    ⨾ member "image_off" (scalar u32)
    ⨾ member "ksym" bpf_ksym
    ⨾ member "sc_key" (pointer "struct static_call_key")
    ⨾ member "sc_tramp" (pointer "void")
    ⨾ end)
