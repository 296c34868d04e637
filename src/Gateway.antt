-- ===== src/Gateway.antt =====
-- internal/api/proxy_routes.go and the bridge tables: which requests the gateway serves, and how.
pub mod Names
pub mod Registry
pub mod Bridges
pub mod Paths
pub mod Routes
pub mod Classify
pub mod Upstream
pub mod Served
pub mod Consistent
