-- ===== src/Sdk.antt =====
-- internal/sdkgo: the in-process client, which polls snapshots and evaluates flags locally, and the
-- typed provider over it.
pub mod Client
pub mod Provider
pub mod Polling
pub mod Agreement
pub mod Typing
