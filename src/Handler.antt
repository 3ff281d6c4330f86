-- ===== src/Handler.antt =====
-- examples/handler/github_issue_handler.py: the client that turns GitHub issues into jobs.
pub mod Base
pub mod Config
pub mod Slug
pub mod Envelope
pub mod Signature
pub mod Terminal
pub mod Server
