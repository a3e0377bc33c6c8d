-- ===== src/Tests.antt =====
-- Kernels, lists and texts on which the theorems of the other modules are applied, and what their
-- definitions compute there.
mod Kernels
mod Queues
mod Processes
mod Devices
mod Memory
pub mod Starts
mod Forks
mod Worlds
mod Images
