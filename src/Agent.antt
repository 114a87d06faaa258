-- ===== src/Agent.antt =====
-- agent/gpu_health_agent: the process on a GPU node that publishes its health.
pub mod Signals
pub mod Kernlog
pub mod Endpoint
pub mod Probe
pub mod ProbeTests
pub mod RenderTests
pub mod Census
pub mod Proc
pub mod PatchCounters
pub mod Config
pub mod Conditions
pub mod Collector
pub mod Publisher
pub mod Metrics
pub mod Serving
pub mod Samples
mod Tests
mod CensusTests
mod ProcTests
mod ServingTests
mod MetricsTests
mod EndpointTests
