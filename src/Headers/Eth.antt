-- ===== src/Headers/Eth.antt =====
-- `struct ethhdr` of kernelspace/vmlinux.h.
use container_lb.Base.{ℕ}

abbrev pub size : ℕ
size = 14

abbrev pub h_dest : ℕ
h_dest = 0

abbrev pub h_source : ℕ
h_source = 6

abbrev pub h_proto : ℕ
h_proto = 12
