-- ===== src/Go.antt =====
-- What the control plane uses of Go: errors beside state, maps keyed by strings, `net.IP`.
pub mod Action
pub mod Dict
pub mod Resources
pub mod Net
