-- ===== src/Samples.antt =====
-- A small protocol file, for the concrete runs in the children.
pub mod Protocol
mod Wire
mod Framing
mod Files
mod Transport
mod Containers
mod Provider
mod Scheduler
mod Tasks
mod Service
