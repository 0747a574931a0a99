-- ===== src/Sapi.antt =====
-- src/sapi.c and src/sapi_context.h: what every source has in common, whatever backend serves it.
pub mod Time
pub mod TimeLaws
pub mod Context
pub mod Pacing
pub mod FormatList
pub mod Deliver
pub mod Timer
pub mod Convertible
pub mod Samples
mod Tests
