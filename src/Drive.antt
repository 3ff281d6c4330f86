-- ===== src/Drive.antt =====
-- .scripts/loadtest/drive.py: the load driver.
mod Examples
pub mod Client
pub mod Envelope
pub mod Preflight
pub mod Percentile
pub mod Report
pub mod RunJob
pub mod Sampler
