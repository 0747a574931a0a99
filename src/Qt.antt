-- ===== src/Qt.antt =====
-- src/sapi_qt.c: QuickTime sources, over the sequence grabber.
pub mod Formats
pub mod Capture
pub mod Sources
mod Tests
