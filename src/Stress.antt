-- ===== src/Stress.antt =====
-- cmd/sock_stress: the stress test of the socket packages.
pub mod VsockAddr
pub mod HvsockAddr
pub mod NetAddr
pub mod Clients
pub mod Echo
pub mod Dgram
pub mod Socks
pub mod OnLinux
pub mod Platforms
pub mod Main
