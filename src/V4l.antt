-- ===== src/V4l.antt =====
-- src/sapi_v4l.c: the backend for Video for Linux. The calls of the system (open, close, ioctl,
-- mmap, threads) are parameters; what the backend does with their answers is translated.
pub mod Text
pub mod Ident
pub mod SrcList
pub mod Devices
pub mod Matches
pub mod Scan
pub mod Acquire
pub mod Capture
pub mod Palette
pub mod Source
mod Tests
