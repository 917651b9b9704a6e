-- ===== src/Vsudd.antt =====
-- cmd/vsudd: the proxy between Unix domain sockets and Hyper-V or virtio sockets.
pub mod Network
pub mod Syslog
pub mod Forwards
pub mod Start
pub mod OnLinux
pub mod Accept
pub mod Proxy
pub mod Main
