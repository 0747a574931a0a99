-- ===== src/Vidcap.antt =====
-- src/vidcap.c: what an application calls.
pub mod Blocks
pub mod Source
pub mod Bind
pub mod Capture
pub mod Calls
pub mod Init
pub mod Sapis
mod Tests
