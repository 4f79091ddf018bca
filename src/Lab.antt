-- ===== src/Lab.antt =====
-- evaluation_lab.py: the failure benchmarks, their policies, and the experiment store.
pub mod Error
pub mod Read
pub mod Cases
pub mod Historical
pub mod Float
pub mod Policy
pub mod Benchmark
pub mod Store
pub mod Mitigation
pub mod Closure
mod Tests
