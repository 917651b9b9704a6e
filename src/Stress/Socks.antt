-- ===== src/Stress/Socks.antt =====
-- The kinds of sockets of cmd/sock_stress: tcp.go, udp.go and unix.go, the methods `Dial`, `Listen`
-- and `ListenPacket` of all of them, and `parseSockStr` of main.go. `url.Parse` and the resolvers of
-- package net are parameters.
pub mod Schemes
pub mod Printed
use virtsock.Common.{
  ℕ, Bool, true, false, ◌||◌, not, Option, none, some, List, [], ◌∷◌, ◌++◌, Result, ok, err, Text,
  codes, equal, if◌then◌else◌,
}
use virtsock.Hvsock.Addr
use virtsock.Vsock
use virtsock.Stress.VsockAddr
use virtsock.Stress.HvsockAddr
use virtsock.Stress.HvsockAddr.{HvsockAddr}
use virtsock.Stress.NetAddr.{parse_net_str}

-- An address that `net.ResolveTCPAddr` or `net.ResolveUDPAddr` gives, by its text, with the network.
pub record NetAddr : Type 0 where
  pub net : Text
  pub addr : Text

-- `Sock`.
pub data Sock : Type 0 where
  vsock : Vsock.Addr → Sock
  hvsock : HvsockAddr → Sock
  tcp udp : NetAddr → Sock
  unix : Text → Sock

-- `String` of each kind.
unfoldable pub string : Sock → Text
string (vsock a) = Vsock.string a
string (hvsock a) = Addr.string a.hv_addr
string (tcp a) = a.net ++ codes "://" ++ a.addr
string (udp a) = a.net ++ codes "://" ++ a.addr
string (unix path) = codes "unix" ++ codes "://" ++ path

-- What is dialled or listened on.
pub data Endpoint : Type 0 where
  at_vsock : ℕ → ℕ → Endpoint
  at_hvsock : Addr.Addr → Endpoint
  at_net : Text → Text → Endpoint

-- Where `Dial` and `Listen` of each kind go; the flag is `useHVSock`.
abbrev pub vsock_endpoint : Vsock.Addr → Endpoint
vsock_endpoint a = at_vsock a.cid a.port

abbrev pub hvsock_endpoint : Bool → HvsockAddr → Endpoint
hvsock_endpoint use_hvsock a =
    if not use_hvsock then at_vsock a.v_addr.cid a.v_addr.port else at_hvsock a.hv_addr

abbrev pub net_endpoint : NetAddr → Endpoint
net_endpoint a = at_net a.net a.addr

abbrev pub unix_endpoint : Text → Endpoint
unix_endpoint path = at_net (codes "unix") path

-- `Dial`.
unfoldable pub dial : Bool → Sock → Endpoint
dial use_hvsock (vsock a) = vsock_endpoint a
dial use_hvsock (hvsock a) = hvsock_endpoint use_hvsock a
dial use_hvsock (tcp a) = net_endpoint a
dial use_hvsock (udp a) = net_endpoint a
dial use_hvsock (unix path) = unix_endpoint path

-- `Listen`; `none` is the fatal error of a method that is not implemented.
unfoldable pub listen : Bool → Sock → Option Endpoint
listen use_hvsock (vsock a) = some (vsock_endpoint a)
listen use_hvsock (hvsock a) = some (hvsock_endpoint use_hvsock a)
listen use_hvsock (tcp a) = some (net_endpoint a)
listen use_hvsock (udp a) = none
listen use_hvsock (unix path) = some (unix_endpoint path)

-- The file that `Listen` removes before it listens.
abbrev pub removed_first : Sock → Option Text
removed_first (unix path) = some path
removed_first _ = none

-- `CloseRead` and `CloseWrite` of a UDP connection.
abbrev pub udp_half_close : Option Text
udp_half_close = some (codes "Unimplemented")

-- `ListenPacket`.
unfoldable pub listen_packet : Sock → Option Endpoint
listen_packet (vsock a) = none
listen_packet (hvsock a) = none
listen_packet (tcp a) = none
listen_packet (udp a) = some (net_endpoint a)
listen_packet (unix path) = none

pub data Fatal : Type 0 where
  bad_url : Text → Fatal
  unknown_scheme : Text → Fatal
  bad_net_addr : Text → Fatal
  in_vsock : VsockAddr.Fatal → Fatal
  in_hvsock : HvsockAddr.Fatal → Fatal

-- What is read of a URL.
pub record Url : Type 0 where
  pub scheme : Text
  pub host : Text
  pub path : Text

abbrev pub Resolver : Type 0
Resolver = Text → Text → Option Text

abbrev pub resolved : (NetAddr → Sock) → Text → Text → Option Text → Result Fatal Sock
resolved make net s none = err (bad_net_addr s)
resolved make net s (some a) = ok (make (record { net = net; addr = a }))

-- `tcpParseSockStr` and `udpParseSockStr`.
unfoldable pub tcp_parse : Resolver → Text → Text → Result Fatal Sock
tcp_parse resolve net s =
    let full = parse_net_str (equal net (codes "tcp6")) s in
    resolved tcp net full (resolve net full)

unfoldable pub udp_parse : Resolver → Text → Text → Result Fatal Sock
udp_parse resolve net s =
    let full = parse_net_str (equal net (codes "udp6")) s in
    resolved udp net full (resolve net full)

abbrev pub as_vsock : Result VsockAddr.Fatal Vsock.Addr → Result Fatal Sock
as_vsock (ok a) = ok (vsock a)
as_vsock (err e) = err (in_vsock e)

abbrev pub as_hvsock : Result HvsockAddr.Fatal HvsockAddr → Result Fatal Sock
as_hvsock (ok a) = ok (hvsock a)
as_hvsock (err e) = err (in_hvsock e)

abbrev pub is_tcp : Text → Bool
is_tcp s = equal s (codes "tcp") || equal s (codes "tcp4") || equal s (codes "tcp6")

abbrev pub is_udp : Text → Bool
is_udp s = equal s (codes "udp") || equal s (codes "udp4") || equal s (codes "udp6")

-- What the two packages and the system say: `runtime.GOOS == "darwin"` and `hvsock.Supported`.
pub record Host : Type 0 where
  pub darwin : Bool
  pub use_hvsock : Bool
  pub resolve_tcp : Resolver
  pub resolve_udp : Resolver

-- The `switch` over the scheme.
unfoldable pub sock_of : Host → Url → Result Fatal Sock
unfolding tcp_parse udp_parse
sock_of h u =
    if equal u.scheme (codes "vsock")
    then as_vsock (VsockAddr.parse h.darwin u.host)
    else if equal u.scheme (codes "hvsock")
    then as_hvsock (HvsockAddr.parse h.use_hvsock u.host)
    else if is_tcp u.scheme
    then tcp_parse h.resolve_tcp u.scheme u.host
    else if is_udp u.scheme
    then udp_parse h.resolve_udp u.scheme u.host
    else if equal u.scheme (codes "unix")
    then ok (unix u.path)
    else err (unknown_scheme u.scheme)

abbrev pub or_whole : Text → Url → Url
or_whole s u = elim u.scheme [ [] ↦ record u { scheme = s } | _ ↦ u ]

abbrev pub with_scheme : Text → Result Fatal Sock → Result Fatal (Text × Sock)
with_scheme s (ok k) = ok (s, k)
with_scheme s (err e) = err e

abbrev pub parse_parsed : Host → Text → Option Url → Result Fatal (Text × Sock)
parse_parsed h s none = err (bad_url s)
parse_parsed h s (some u) = let v = or_whole s u in with_scheme v.scheme (sock_of h v)

-- `parseSockStr`, with the scheme.
unfoldable pub parse_sock_str : (Text → Option Url) → Host → Text → Result Fatal (Text × Sock)
parse_sock_str parse_url h s = parse_parsed h s (parse_url s)
