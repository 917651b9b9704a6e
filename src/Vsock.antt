-- ===== src/Vsock.antt =====
-- pkg/vsock: addresses (vsock.go) and the Linux bindings (vsock_linux.go).
pub mod Linux
pub mod Fallback
pub mod Hyperkit
use virtsock.Common.{ℕ, ◌+◌, ◌++◌, ◌∷◌, [], Text}
use virtsock.Fmt.{hex_08}

-- `CIDAny`, `CIDHypervisor`, `CIDHost`.
abbrev pub cid_any : ℕ
cid_any = 4294967295

abbrev pub cid_hypervisor : ℕ
cid_hypervisor = 0

abbrev pub cid_host : ℕ
cid_host = 2

-- `Addr`; both fields are of type `uint32`.
pub record Addr : Type 0 where
  pub cid : ℕ
  pub port : ℕ

-- `%08x.%08x`.
unfoldable pub address : ℕ → ℕ → Text
unfolding hex_08
address cid port = hex_08 cid ++ (b'.' ∷ hex_08 port)

-- `Addr.String`.
unfoldable pub string : Addr → Text
unfolding address
string a = address a.cid a.port
