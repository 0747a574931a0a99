-- ===== src/Dshow.antt =====
-- src/directshow/SourceStateMachine.cpp: three threads that share the flags of a DirectShow source.
pub mod Machine
pub mod Quiet
mod Tests
