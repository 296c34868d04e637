-- ===== src/Core.antt =====
-- internal/core: account selection, session routing, request recording and clean-up.
pub mod Selector
pub mod HashRing
pub mod Recorder
pub mod Cleanup
pub mod Redaction
