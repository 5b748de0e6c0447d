-- ===== src/Vmlinux.antt =====
-- The declarations of kernelspace/vmlinux.h that the load balancer meets: the headers of its frames,
-- the context and maps of its programs, and the calls that load and attach them.
pub mod Scalars
pub mod Kernel
pub mod Headers
pub mod Xdp
pub mod Redirect
pub mod MapOps
pub mod Maps
pub mod HashTab
pub mod Programs
pub mod Links
pub mod Btf
pub mod AttrObjects
pub mod Attr
pub mod Info
pub mod Enums
pub mod Commands
pub mod Helpers
