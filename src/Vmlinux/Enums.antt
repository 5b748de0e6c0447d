-- ===== src/Vmlinux/Enums.antt =====
-- The kinds of maps, programs and links, and the codes of XDP, of kernelspace/vmlinux.h.
use container_lb.Base.{[], ◌∷◌}
use container_lb.Layout.{Enumerators}

abbrev pub xdp_action : Enumerators
xdp_action =
    ("XDP_ABORTED", 0)
    ∷ ("XDP_DROP", 1)
    ∷ ("XDP_PASS", 2)
    ∷ ("XDP_TX", 3)
    ∷ ("XDP_REDIRECT", 4)
    ∷ []

abbrev pub bpf_map_type : Enumerators
bpf_map_type =
    ("BPF_MAP_TYPE_UNSPEC", 0)
    ∷ ("BPF_MAP_TYPE_HASH", 1)
    ∷ ("BPF_MAP_TYPE_ARRAY", 2)
    ∷ ("BPF_MAP_TYPE_PROG_ARRAY", 3)
    ∷ ("BPF_MAP_TYPE_PERF_EVENT_ARRAY", 4)
    ∷ ("BPF_MAP_TYPE_PERCPU_HASH", 5)
    ∷ ("BPF_MAP_TYPE_PERCPU_ARRAY", 6)
    ∷ ("BPF_MAP_TYPE_STACK_TRACE", 7)
    ∷ ("BPF_MAP_TYPE_CGROUP_ARRAY", 8)
    ∷ ("BPF_MAP_TYPE_LRU_HASH", 9)
    ∷ ("BPF_MAP_TYPE_LRU_PERCPU_HASH", 10)
    ∷ ("BPF_MAP_TYPE_LPM_TRIE", 11)
    ∷ ("BPF_MAP_TYPE_ARRAY_OF_MAPS", 12)
    ∷ ("BPF_MAP_TYPE_HASH_OF_MAPS", 13)
    ∷ ("BPF_MAP_TYPE_DEVMAP", 14)
    ∷ ("BPF_MAP_TYPE_SOCKMAP", 15)
    ∷ ("BPF_MAP_TYPE_CPUMAP", 16)
    ∷ ("BPF_MAP_TYPE_XSKMAP", 17)
    ∷ ("BPF_MAP_TYPE_SOCKHASH", 18)
    ∷ ("BPF_MAP_TYPE_CGROUP_STORAGE_DEPRECATED", 19)
    ∷ ("BPF_MAP_TYPE_CGROUP_STORAGE", 19)
    ∷ ("BPF_MAP_TYPE_REUSEPORT_SOCKARRAY", 20)
    ∷ ("BPF_MAP_TYPE_PERCPU_CGROUP_STORAGE_DEPRECATED", 21)
    ∷ ("BPF_MAP_TYPE_PERCPU_CGROUP_STORAGE", 21)
    ∷ ("BPF_MAP_TYPE_QUEUE", 22)
    ∷ ("BPF_MAP_TYPE_STACK", 23)
    ∷ ("BPF_MAP_TYPE_SK_STORAGE", 24)
    ∷ ("BPF_MAP_TYPE_DEVMAP_HASH", 25)
    ∷ ("BPF_MAP_TYPE_STRUCT_OPS", 26)
    ∷ ("BPF_MAP_TYPE_RINGBUF", 27)
    ∷ ("BPF_MAP_TYPE_INODE_STORAGE", 28)
    ∷ ("BPF_MAP_TYPE_TASK_STORAGE", 29)
    ∷ ("BPF_MAP_TYPE_BLOOM_FILTER", 30)
    ∷ ("BPF_MAP_TYPE_USER_RINGBUF", 31)
    ∷ ("BPF_MAP_TYPE_CGRP_STORAGE", 32)
    ∷ ("BPF_MAP_TYPE_ARENA", 33)
    ∷ ("__MAX_BPF_MAP_TYPE", 34)
    ∷ []

abbrev pub bpf_prog_type : Enumerators
bpf_prog_type =
    ("BPF_PROG_TYPE_UNSPEC", 0)
    ∷ ("BPF_PROG_TYPE_SOCKET_FILTER", 1)
    ∷ ("BPF_PROG_TYPE_KPROBE", 2)
    ∷ ("BPF_PROG_TYPE_SCHED_CLS", 3)
    ∷ ("BPF_PROG_TYPE_SCHED_ACT", 4)
    ∷ ("BPF_PROG_TYPE_TRACEPOINT", 5)
    ∷ ("BPF_PROG_TYPE_XDP", 6)
    ∷ ("BPF_PROG_TYPE_PERF_EVENT", 7)
    ∷ ("BPF_PROG_TYPE_CGROUP_SKB", 8)
    ∷ ("BPF_PROG_TYPE_CGROUP_SOCK", 9)
    ∷ ("BPF_PROG_TYPE_LWT_IN", 10)
    ∷ ("BPF_PROG_TYPE_LWT_OUT", 11)
    ∷ ("BPF_PROG_TYPE_LWT_XMIT", 12)
    ∷ ("BPF_PROG_TYPE_SOCK_OPS", 13)
    ∷ ("BPF_PROG_TYPE_SK_SKB", 14)
    ∷ ("BPF_PROG_TYPE_CGROUP_DEVICE", 15)
    ∷ ("BPF_PROG_TYPE_SK_MSG", 16)
    ∷ ("BPF_PROG_TYPE_RAW_TRACEPOINT", 17)
    ∷ ("BPF_PROG_TYPE_CGROUP_SOCK_ADDR", 18)
    ∷ ("BPF_PROG_TYPE_LWT_SEG6LOCAL", 19)
    ∷ ("BPF_PROG_TYPE_LIRC_MODE2", 20)
    ∷ ("BPF_PROG_TYPE_SK_REUSEPORT", 21)
    ∷ ("BPF_PROG_TYPE_FLOW_DISSECTOR", 22)
    ∷ ("BPF_PROG_TYPE_CGROUP_SYSCTL", 23)
    ∷ ("BPF_PROG_TYPE_RAW_TRACEPOINT_WRITABLE", 24)
    ∷ ("BPF_PROG_TYPE_CGROUP_SOCKOPT", 25)
    ∷ ("BPF_PROG_TYPE_TRACING", 26)
    ∷ ("BPF_PROG_TYPE_STRUCT_OPS", 27)
    ∷ ("BPF_PROG_TYPE_EXT", 28)
    ∷ ("BPF_PROG_TYPE_LSM", 29)
    ∷ ("BPF_PROG_TYPE_SK_LOOKUP", 30)
    ∷ ("BPF_PROG_TYPE_SYSCALL", 31)
    ∷ ("BPF_PROG_TYPE_NETFILTER", 32)
    ∷ ("__MAX_BPF_PROG_TYPE", 33)
    ∷ []

abbrev pub bpf_link_type : Enumerators
bpf_link_type =
    ("BPF_LINK_TYPE_UNSPEC", 0)
    ∷ ("BPF_LINK_TYPE_RAW_TRACEPOINT", 1)
    ∷ ("BPF_LINK_TYPE_TRACING", 2)
    ∷ ("BPF_LINK_TYPE_CGROUP", 3)
    ∷ ("BPF_LINK_TYPE_ITER", 4)
    ∷ ("BPF_LINK_TYPE_NETNS", 5)
    ∷ ("BPF_LINK_TYPE_XDP", 6)
    ∷ ("BPF_LINK_TYPE_PERF_EVENT", 7)
    ∷ ("BPF_LINK_TYPE_KPROBE_MULTI", 8)
    ∷ ("BPF_LINK_TYPE_STRUCT_OPS", 9)
    ∷ ("BPF_LINK_TYPE_NETFILTER", 10)
    ∷ ("BPF_LINK_TYPE_TCX", 11)
    ∷ ("BPF_LINK_TYPE_UPROBE_MULTI", 12)
    ∷ ("BPF_LINK_TYPE_NETKIT", 13)
    ∷ ("BPF_LINK_TYPE_SOCKMAP", 14)
    ∷ ("__MAX_BPF_LINK_TYPE", 15)
    ∷ []

abbrev pub xdp_mem_type : Enumerators
xdp_mem_type =
    ("MEM_TYPE_PAGE_SHARED", 0)
    ∷ ("MEM_TYPE_PAGE_ORDER0", 1)
    ∷ ("MEM_TYPE_PAGE_POOL", 2)
    ∷ ("MEM_TYPE_XSK_BUFF_POOL", 3)
    ∷ ("MEM_TYPE_MAX", 4)
    ∷ []

abbrev pub xdp_buff_flags : Enumerators
xdp_buff_flags =
    ("XDP_FLAGS_HAS_FRAGS", 1)
    ∷ ("XDP_FLAGS_FRAGS_PF_MEMALLOC", 2)
    ∷ ("XDP_FLAGS_FRAGS_UNREADABLE", 4)
    ∷ []

abbrev pub bpf_xdp_mode : Enumerators
bpf_xdp_mode =
    ("XDP_MODE_SKB", 0) ∷ ("XDP_MODE_DRV", 1) ∷ ("XDP_MODE_HW", 2) ∷ ("__MAX_XDP_MODE", 3) ∷ []

abbrev pub bpf_netdev_command : Enumerators
bpf_netdev_command =
    ("XDP_SETUP_PROG", 0)
    ∷ ("XDP_SETUP_PROG_HW", 1)
    ∷ ("BPF_OFFLOAD_MAP_ALLOC", 2)
    ∷ ("BPF_OFFLOAD_MAP_FREE", 3)
    ∷ ("XDP_SETUP_XSK_POOL", 4)
    ∷ []
