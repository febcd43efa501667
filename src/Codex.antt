-- ===== src/Codex.antt =====
-- timeout/codex_app_server_discovery.go, timeout/codex_app_server_client.go and
-- timeout/activity_source_codex_app_server_api.go: the source `codex-app-server`.
pub mod Discovery
pub mod Client
pub mod Scan
mod Tests
