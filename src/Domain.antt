-- ===== src/Domain.antt =====
-- internal/domain: the account row, its validation and its capabilities.
pub mod Account
pub mod BaseUrl
pub mod Capability
pub mod Shape
