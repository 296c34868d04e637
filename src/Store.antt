-- ===== src/Store.antt =====
-- internal/store: the account table.
pub mod Engine
pub mod Rows
pub mod Accounts
pub mod Models
