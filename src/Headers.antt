-- ===== src/Headers.antt =====
-- Sizes and field offsets of the headers in kernelspace/vmlinux.h: `struct ethhdr`, `struct iphdr`
-- and `struct icmphdr`.
pub mod Eth
pub mod Ip
pub mod Icmp
pub mod Members
