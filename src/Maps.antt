-- ===== src/Maps.antt =====
-- The four BPF maps of kernelspace/xdp_lb.c as both sides of the program use them. The kernel
-- implements them, and the helpers of libbpf, so they are parameters here.
pub mod Laws
use container_lb.Base.{ℕ, Bool, Option, List}
use container_lb.Packet.{Endian}
use container_lb.Types.{BackendInfo, LbConfig, StatsCounter}

-- BPF_MAP_TYPE_ARRAY over values `V`, in a state `M`. `put` is `none` where the call fails.
pub record ArrayMap (V M : Type 0) : Type 0 where
  pub lookup : M → ℕ → Option V
  pub put : M → ℕ → V → Option M

-- BPF_MAP_TYPE_HASH from `__u32` to `__u32`.
pub record HashMap (M : Type 0) : Type 0 where
  pub lookup : M → ℕ → Option ℕ
  pub put : M → ℕ → ℕ → Option M
  pub delete : M → ℕ → Option M

-- BPF_MAP_TYPE_PERCPU_ARRAY: a program sees the slot of its CPU, through a pointer that it may
-- write by; a lookup from user space gives the slots of all CPUs.
pub record PerCpuArray (V M : Type 0) : Type 0 where
  pub lookup : M → ℕ → ℕ → Option V
  pub write : M → ℕ → ℕ → V → M
  pub lookup_all : M → ℕ → Option (List V)

-- What the programs are compiled for and what the kernel gives them.
pub record Kernel (C B H P : Type 0) : Type 0 where
  pub endian : Endian
  pub bpf_htons : ℕ → ℕ
  pub config : ArrayMap LbConfig C
  pub backend : ArrayMap BackendInfo B
  pub ips : HashMap H
  pub counters : PerCpuArray StatsCounter P

-- The contents of the maps.
pub record Maps (C B H P : Type 0) : Type 0 where
  pub config_map : C
  pub backend_map : B
  pub backend_ips_map : H
  pub counters_map : P
