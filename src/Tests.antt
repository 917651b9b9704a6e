-- ===== src/Tests.antt =====
-- The theorems at concrete inputs, and runs of the definitions.
mod Addresses
mod Kernels
mod HvsockConns
mod Deadlines
mod Ports
mod Clients
mod Datagrams
mod Sessions
mod Handles
mod Transfers
mod Closings
mod Setups
mod Calls
mod Servings
