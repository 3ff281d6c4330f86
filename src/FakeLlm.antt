-- ===== src/FakeLlm.antt =====
-- .scripts/loadtest/fake_llm.py: the stub of an OpenAI-compatible provider for load tests.
mod Examples
pub mod Settings
pub mod Stats
pub mod Stream
pub mod Http
pub mod Arguments
pub mod Completion
pub mod Hello
