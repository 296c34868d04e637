-- ===== src/Codex.antt =====
-- internal/provider/openai/codex_request.go: the request that goes to Codex.
pub mod Aliases
pub mod Checks
pub mod Tools
pub mod Items
pub mod Messages
pub mod Request
