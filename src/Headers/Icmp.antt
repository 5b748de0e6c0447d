-- ===== src/Headers/Icmp.antt =====
-- `struct icmphdr` of kernelspace/vmlinux.h.
use container_lb.Base.{ℕ}

abbrev pub size : ℕ
size = 8
