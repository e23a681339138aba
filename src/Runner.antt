-- ===== src/Runner.antt =====
-- internal/providers/local/runner.go: the provider that runs a model in a process of its own.
pub mod Prompts
pub mod Options
pub mod Sending
pub mod Startup
pub mod Choice
pub mod Answer
pub mod Relay
pub mod Provided
