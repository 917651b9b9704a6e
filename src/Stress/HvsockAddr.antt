-- ===== src/Stress/HvsockAddr.antt =====
-- cmd/sock_stress/hvsock.go: addresses of Hyper-V sockets on the command line.
pub mod Parse
pub mod VsockMode
pub mod Typed
use virtsock.Common.{
  ℕ, Bool, true, false, not, ◌≡◌, Option, none, some, Result, ok, err, ◌>>=◌, ◌>>◌, List, [], ◌∷◌,
  ◌++◌, if◌then◌else◌, Text, codes, contains, equal,
}
use virtsock.Fmt.{ScanError}
use virtsock.Strings.{AddrError, split_host_port}
use virtsock.Hvsock.Guid.{Guid, from_string, port, PortError}
use virtsock.Hvsock.Addr.{Addr, guid_zero, guid_loopback, guid_parent}
use virtsock.Vsock.{cid_any, cid_host, cid_hypervisor}
use virtsock.Vsock

-- `svcid`.
abbrev pub svcid : Guid
unfolding from_string
svcid = (from_string (codes "3049197C-FACB-11E6-BD58-64006A7986D3")).0

-- The message of a `log.Fatalf`, after which the program has exited.
pub data Fatal : Type 0 where
  bad_address : Text → AddrError → Fatal
  guid_in_vsock_mode : Fatal
  bad_vm bad_service : Text → ScanError → Fatal
  bad_port : Text → PortError → Fatal

-- `hvsockAddr`.
pub record HvsockAddr : Type 0 where
  pub hv_addr : Addr
  pub v_addr : Vsock.Addr

abbrev pub port_or_zero : Result PortError ℕ → ℕ
port_or_zero (ok p) = p
port_or_zero (err e) = 0

-- The addresses before the text is read.
abbrev pub default_addr : HvsockAddr
unfolding from_string port
default_addr = record {
  hv_addr = record { vmid = guid_zero; service_id = svcid };
  v_addr = record { cid = cid_any; port = port_or_zero (port svcid) };
}

abbrev pub cut : Text → Result Fatal (Text × Text)
cut s = if contains s b':' then wrap (split_host_port s) else ok (s, [])
  where
    wrap : Result AddrError (Text × Text) → Result Fatal (Text × Text)
    wrap (ok p) = ok p
    wrap (err e) = err (bad_address s e)

-- `GUIDFromString`, with a fatal error.
abbrev pub guid_or_fatal : (ScanError → Fatal) → Guid × Option ScanError → Result Fatal Guid
guid_or_fatal die (g, none) = ok g
guid_or_fatal die (g, some e) = err (die e)

abbrev pub port_or_fatal : Text → Result PortError ℕ → Result Fatal ℕ
port_or_fatal s (ok p) = ok p
port_or_fatal s (err e) = err (bad_port s e)

-- The block `if vmStr != ""`.
abbrev pub set_vm : Bool → Text → HvsockAddr → Result Fatal HvsockAddr
set_vm use_hvsock [] a = ok a
set_vm use_hvsock (c ∷ s) a =
    if contains (c ∷ s) b'-'
    then (if not use_hvsock then err guid_in_vsock_mode else do
      g ← guid_or_fatal (bad_vm (c ∷ s)) (from_string (c ∷ s))
      ok (with_vm g a.v_addr.cid))
    else if equal (c ∷ s) (codes "parent")
    then ok (with_vm guid_parent cid_host)
    else ok (with_vm guid_loopback cid_hypervisor)
  where
    with_vm : Guid → ℕ → HvsockAddr
    with_vm g cid = record {
      hv_addr = record { vmid = g; service_id = a.hv_addr.service_id };
      v_addr = record { cid = cid; port = a.v_addr.port };
    }

-- The block `if svcStr != ""`.
abbrev pub set_service : Bool → Text → HvsockAddr → Result Fatal HvsockAddr
set_service use_hvsock [] a = ok a
set_service use_hvsock (c ∷ s) a = do
  g ← guid_or_fatal (bad_service (c ∷ s)) (from_string (c ∷ s))
  p ← if not use_hvsock then port_or_fatal (c ∷ s) (port g) else ok a.v_addr.port
  ok (record {
    hv_addr = record { vmid = a.hv_addr.vmid; service_id = g };
    v_addr = record { cid = a.v_addr.cid; port = p };
  })

-- `hvsockParseSockStr`, on a text that is not empty and on any text; the flag is `useHVSock`.
abbrev pub parse_nonempty : Bool → Text → Result Fatal HvsockAddr
parse_nonempty use_hvsock s = do
  parts ← cut s
  a ← set_vm use_hvsock parts.0 default_addr
  set_service use_hvsock parts.1 a

unfoldable pub parse : Bool → Text → Result Fatal HvsockAddr
parse use_hvsock [] = ok default_addr
parse use_hvsock (c ∷ s) = parse_nonempty use_hvsock (c ∷ s)
