-- ===== src/Setup.antt =====
-- internal/setup: the gate before every handler, and the marker on disk that it reads. Methods of
-- the gate take effect one after the other, as its lock and its atomic fields make them.
pub mod Gate
pub mod Answers
