-- ===== src/Hvsock.antt =====
-- pkg/hvsock.
pub mod Guid
pub mod Write
pub mod Addr
pub mod Linux
pub mod Fallback
pub mod Windows
