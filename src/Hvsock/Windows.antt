-- ===== src/Hvsock/Windows.antt =====
-- pkg/hvsock/hvsock_windows.go.
pub mod Calls
pub mod Sockets
pub mod Close
pub mod Io
pub mod Deadline
pub mod SetDeadline
pub mod Completion
pub mod Life
pub mod Ports
