-- ===== src/Webhook.antt =====
-- cmd/cpu-pool-admissionwebhook/pool-admissionwebhook.go: the webhook that completes the CPU
-- requests and limits of pods, and refuses those that do not fit together.
pub mod Resources
pub mod Validate
pub mod Patch
pub mod Mutate
pub mod Escaping
pub mod Scans
pub mod Native
pub mod Several
pub mod Mixed
pub mod Reviewed
pub mod Tests
