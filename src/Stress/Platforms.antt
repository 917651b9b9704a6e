-- ===== src/Stress/Platforms.antt =====
-- Which code a socket of cmd/sock_stress is dialled and listened on with, on each platform: the build
-- constraints of the files of pkg/hvsock and pkg/vsock, with `hostInit` of main_darwin.go and
-- main_fallback.go.
pub mod Served
use virtsock.Common.{
  ℕ, Bool, true, false, Option, none, some, Result, ok, err, Text, codes, if◌then◌else◌,
}
use virtsock.Hvsock.Addr.{Addr}
use virtsock.Hvsock.Fallback as HvFallback
use virtsock.Vsock.Fallback as VFallback
use virtsock.Vsock.Hyperkit as Hyperkit
use virtsock.Stress.Socks
use virtsock.Stress.Main.{Flags, Run, main}
use virtsock.Stress.Socks.{Resolver, Host, Url, Fatal, Sock, Endpoint, at_vsock, at_hvsock, at_net}

-- `runtime.GOOS`.
pub data Platform : Type 0 where
  linux darwin windows : Platform
  other : Text → Platform

abbrev pub goos : Platform → Text
goos linux = codes "linux"
goos darwin = codes "darwin"
goos windows = codes "windows"
goos (other name) = name

-- The code that is called: a package as it is on Linux, the one for HyperKit, the one for Windows, or
-- package net.
pub data Callee : Type 0 where
  linux_vsock hyperkit : ℕ → ℕ → Callee
  linux_hvsock windows_hvsock : Addr → Callee
  net : Text → Text → Callee

-- `hvsock.Supported`, which asks the kernel on Linux, with its answer.
abbrev pub supported : Platform → Bool → Bool
supported linux answer = answer
supported windows answer = true
supported _ answer = HvFallback.supported

-- `vsock.Dial` and `hvsock.Dial`.
abbrev pub vsock_dial : Platform → ℕ → ℕ → Result Text Callee
vsock_dial linux cid port = ok (linux_vsock cid port)
vsock_dial darwin cid port = ok (hyperkit cid port)
vsock_dial _ cid port = VFallback.dial cid port

abbrev pub hvsock_dial : Platform → Addr → Result Text Callee
hvsock_dial linux a = ok (linux_hvsock a)
hvsock_dial windows a = ok (windows_hvsock a)
hvsock_dial p a = HvFallback.dial (goos p) a

abbrev pub vsock_listen : Platform → ℕ → ℕ → Result Text Callee
vsock_listen linux cid port = ok (linux_vsock cid port)
vsock_listen darwin cid port = ok (hyperkit cid port)
vsock_listen _ cid port = VFallback.listen cid port

abbrev pub hvsock_listen : Platform → Addr → Result Text Callee
hvsock_listen linux a = ok (linux_hvsock a)
hvsock_listen windows a = ok (windows_hvsock a)
hvsock_listen p a = HvFallback.listen (goos p) a

abbrev pub dial_at : Platform → Endpoint → Result Text Callee
dial_at p (at_vsock cid port) = vsock_dial p cid port
dial_at p (at_hvsock a) = hvsock_dial p a
dial_at p (at_net network address) = ok (net network address)

abbrev pub listen_at : Platform → Endpoint → Result Text Callee
listen_at p (at_vsock cid port) = vsock_listen p cid port
listen_at p (at_hvsock a) = hvsock_listen p a
listen_at p (at_net network address) = ok (net network address)

-- `Dial` and `Listen` of a socket; `none` where the kind of socket has no `Listen`.
unfoldable pub dial : Platform → Bool → Sock → Result Text Callee
dial p answer s = dial_at p (Socks.dial (supported p answer) s)

abbrev pub listen_to : Platform → Option Endpoint → Option (Result Text Callee)
listen_to p none = none
listen_to p (some e) = some (listen_at p e)

unfoldable pub listen : Platform → Bool → Sock → Option (Result Text Callee)
listen p answer s = listen_to p (Socks.listen (supported p answer) s)

-- `hostInit` with the flag `-m`: on macOS the paths of HyperKit, which a bad mode ends the program
-- over, and nothing elsewhere.
abbrev pub with_paths : Option Hyperkit.Paths → Option (Option Hyperkit.Paths)
with_paths none = none
with_paths (some p) = some (some p)

unfoldable pub host_init : Platform → Hyperkit.Host → Text → Option (Option Hyperkit.Paths)
host_init darwin h mode = with_paths (Hyperkit.socket_mode h mode)
host_init _ h mode = some none

-- The flag's default.
abbrev pub default_mode : Text
default_mode = codes "docker"

-- `main`, behind what the packages' `init` has found out and `hostInit`; `none` is where that ends
-- the program.
abbrev pub is_darwin : Platform → Bool
is_darwin darwin = true
is_darwin _ = false

abbrev pub host_of : Platform → Bool → Resolver → Resolver → Host
host_of p answer resolve_tcp resolve_udp = record {
  darwin = is_darwin p;
  use_hvsock = supported p answer;
  resolve_tcp = resolve_tcp;
  resolve_udp = resolve_udp;
}

abbrev pub behind : Option (Option Hyperkit.Paths) → Result Fatal Run → Option (Result Fatal Run)
behind none r = none
behind (some p) r = some r

module _ (p : Platform) (answer : Bool) (k : Hyperkit.Host) (mode : Text)
    (parse_url : Text → Option Url) (resolve_tcp resolve_udp : Resolver) where
  unfoldable pub start : Flags → Option (Result Fatal Run)
  start f =
      behind (host_init p k mode) (main parse_url (host_of p answer resolve_tcp resolve_udp) f)
