-- ===== src/Tests.antt =====
-- The theorems at concrete inputs.
mod Machine
mod DataPlane
mod ControlPlane
mod Pools
mod Values
mod Userspace
mod Lifecycle
mod Polls
mod World
