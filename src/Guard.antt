-- ===== src/Guard.antt =====
-- guard/gpu_node_guard: the process that cordons nodes.
pub mod Policy
pub mod Supervisor
pub mod World
pub mod Lease
pub mod Time
pub mod Loop
pub mod Metrics
pub mod Config
pub mod Serving
pub mod Samples
mod SupervisorTests
mod ConfigTests
mod LoopTests
mod TimeTests
mod Tests
