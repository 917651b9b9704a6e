-- ===== src/Stress/Platforms/Served.antt =====
-- Which sockets can be used on which platform.
use virtsock.Common.{
  subst, if◌then◌else◌, Bool, true, false, ◌≡◌, refl, Option, none, some, Result, ok, err, Text,
  codes,
}
use virtsock.Vsock.Fallback as VFallback
use virtsock.Vsock.Hyperkit as Hyperkit
use virtsock.Stress.Socks
use virtsock.Stress.Socks.{Sock, vsock, hvsock, tcp, udp, unix}
use virtsock.Stress.Socks.{Url, Resolver, Fatal, parse_sock_str}
use virtsock.Stress.HvsockAddr.{HvsockAddr}
use virtsock.Vsock
use virtsock.Stress.Main.{
  Flags, Run, serve, data_lens_reversed, buf_lens_reversed, clients, workers, main, run_parsed,
  is_empty,
}
use virtsock.Stress.Main.Runs.{Admits, main-Admits}
use virtsock.Stress.Platforms.{
  Platform, linux, darwin, windows, other, Callee, linux_vsock, hyperkit, linux_hvsock,
  windows_hvsock, net, supported, dial, listen, host_init, host_of, with_paths, behind, start,
}

-- The code that a socket is to reach. Virtio sockets have some on Linux and macOS. Hyper-V sockets
-- have it on Windows and, as the kernel answers, on Linux; without it they are dialled as the virtio
-- socket that stands beside the address. Where there is none the fallback for virtio sockets answers.
abbrev pub for_vsock : Platform → Vsock.Addr → Result Text Callee
for_vsock linux a = ok (linux_vsock a.cid a.port)
for_vsock darwin a = ok (hyperkit a.cid a.port)
for_vsock _ a = err (codes "Unimplemented")

abbrev pub for_hvsock : Platform → Bool → HvsockAddr → Result Text Callee
for_hvsock linux true a = ok (linux_hvsock a.hv_addr)
for_hvsock windows answer a = ok (windows_hvsock a.hv_addr)
for_hvsock p answer a = for_vsock p a.v_addr

abbrev pub for_socket : Platform → Bool → Sock → Result Text Callee
for_socket p answer (vsock a) = for_vsock p a
for_socket p answer (hvsock a) = for_hvsock p answer a
for_socket p answer (tcp a) = ok (net a.net a.addr)
for_socket p answer (udp a) = ok (net a.net a.addr)
for_socket p answer (unix path) = ok (net (codes "unix") path)

-- Where there is a `Listen`, it goes to the same code.
abbrev pub Agrees : Option (Result Text Callee) → Result Text Callee → Type 0
Agrees none r = Unit
Agrees (some l) r = l ≡ r

dial-for_socket :
    (p : Platform) (answer : Bool) (s : Sock) → dial p answer s ≡ for_socket p answer s
unfolding dial Socks.dial VFallback.dial
dial-for_socket linux true (hvsock a) = refl
dial-for_socket linux false (hvsock a) = refl
dial-for_socket linux answer (vsock a) = refl
dial-for_socket darwin answer (vsock a) = refl
dial-for_socket darwin answer (hvsock a) = refl
dial-for_socket windows answer (vsock a) = refl
dial-for_socket windows answer (hvsock a) = refl
dial-for_socket (other name) answer (vsock a) = refl
dial-for_socket (other name) answer (hvsock a) = refl
dial-for_socket p answer (tcp a) = refl
dial-for_socket p answer (udp a) = refl
dial-for_socket p answer (unix path) = refl

listen-Agrees :
    (p : Platform) (answer : Bool) (s : Sock) → Agrees (listen p answer s) (dial p answer s)
unfolding dial listen Socks.dial Socks.listen VFallback.dial VFallback.listen
listen-Agrees linux true (hvsock a) = refl
listen-Agrees linux false (hvsock a) = refl
listen-Agrees linux answer (vsock a) = refl
listen-Agrees darwin answer (vsock a) = refl
listen-Agrees darwin answer (hvsock a) = refl
listen-Agrees windows answer (vsock a) = refl
listen-Agrees windows answer (hvsock a) = refl
listen-Agrees (other name) answer (vsock a) = refl
listen-Agrees (other name) answer (hvsock a) = refl
listen-Agrees p answer (tcp a) = refl
listen-Agrees p answer (udp a) = tt
listen-Agrees p answer (unix path) = refl

-- A run reaches the code that its socket is to reach.
abbrev pub Reaches : Platform → Bool → Run → Type 0
Reaches p answer (serve t s) =
    (dial p answer s ≡ for_socket p answer s) × Agrees (listen p answer s) (for_socket p answer s)
Reaches p answer (clients t s ids) = dial p answer s ≡ for_socket p answer s
Reaches p answer (workers t s n) = dial p answer s ≡ for_socket p answer s
Reaches p answer _ = Unit

Run-Reaches : (p : Platform) (answer : Bool) (r : Run) → Reaches p answer r
Run-Reaches p answer (serve t s) = (
  dial-for_socket p answer s,
  subst (Agrees (listen p answer s)) (dial-for_socket p answer s) (listen-Agrees p answer s),
)
Run-Reaches p answer (clients t s ids) = dial-for_socket p answer s
Run-Reaches p answer (workers t s n) = dial-for_socket p answer s
Run-Reaches p answer data_lens_reversed = tt
Run-Reaches p answer buf_lens_reversed = tt

-- The text that is read as an address.
abbrev pub address_of : Flags → Text
address_of f = if is_empty f.server_str then f.client_str else f.server_str

-- The program ends in the set-up only on macOS, and with an error only if the address is not read.
abbrev pub Comes :
    Platform
    → Bool
    → Hyperkit.Host
    → Text
    → (Text → Option Url)
    → Resolver
    → Resolver
    → Flags
    → Option (Result Fatal Run)
    → Type 0
Comes p answer k mode parse_url resolve_tcp resolve_udp f none =
    (p ≡ darwin) × (Hyperkit.socket_mode k mode ≡ none)
Comes p answer k mode parse_url resolve_tcp resolve_udp f (some (err e)) =
    parse_sock_str parse_url (host_of p answer resolve_tcp resolve_udp) (address_of f) ≡ err e
Comes p answer k mode parse_url resolve_tcp resolve_udp f (some (ok r)) =
    Admits (supported p answer) f r × Reaches p answer r

run_parsed-err :
    (f : Flags) (r : Result Fatal (Text × Sock)) {e : Fatal} → run_parsed f r ≡ err e → r ≡ err e
run_parsed-err f (err x) is = cc
run_parsed-err f (ok (scheme, s)) is = cc

-- `main` on every platform, whatever the kernel, `url.Parse` and the resolvers answer. The set-up
-- ends the program only on macOS, for a bad `-m`; an error behind it is that of reading the address
-- that is given. Of a run, a server or a client in either mode, the test fits the socket, so that no
-- method is called that is not implemented for it and server and client name the same end point;
-- clients run only with ordered lengths, one after the other with the numbers from 0 on unless more
-- than one worker is asked for, and then with that many workers; a complaint about lengths is made
-- only if they are reversed. A virtio socket is dialled, by its CID and port, by pkg/vsock on Linux
-- and over HyperKit on macOS; a Hyper-V socket, by its address, by pkg/hvsock on Windows and on a
-- Linux that supports it, and otherwise as the virtio socket beside it; where there is no virtio
-- socket both end with the error of that fallback, so that the one for Hyper-V sockets is never
-- called; other sockets go to package net with their address. A server's `Listen` reaches the same.
pub start-Comes :
    (p : Platform) (answer : Bool) (k : Hyperkit.Host) (mode : Text) (parse_url : Text → Option Url)
    (resolve_tcp resolve_udp : Resolver) (f : Flags)
    → Comes p answer k mode parse_url resolve_tcp resolve_udp f
        (start p answer k mode parse_url resolve_tcp resolve_udp f)
unfolding start host_init main
start-Comes p answer k mode parse_url resolve_tcp resolve_udp f = by_platform p
  where
    ran :
        (q : Platform) (r : Result Fatal Run)
        → main parse_url (host_of q answer resolve_tcp resolve_udp) f ≡ r
        → Comes q answer k mode parse_url resolve_tcp resolve_udp f (some r)
    ran q (err e) is = run_parsed-err f _ is
    ran q (ok r) is = (
      main-Admits parse_url (host_of q answer resolve_tcp resolve_udp) f r is,
      Run-Reaches q answer r,
    )

    on_darwin :
        (o : Option Hyperkit.Paths)
        → Hyperkit.socket_mode k mode ≡ o
        → Comes darwin answer k mode parse_url resolve_tcp resolve_udp f (
            behind
              (with_paths o)
              (main parse_url (host_of darwin answer resolve_tcp resolve_udp) f))
    on_darwin none is = (refl, is)
    on_darwin (some paths) is = ran darwin _ refl

    by_platform :
        (q : Platform)
        → Comes q answer k mode parse_url resolve_tcp resolve_udp f
            (start q answer k mode parse_url resolve_tcp resolve_udp f)
    by_platform linux = ran linux _ refl
    by_platform darwin = on_darwin (Hyperkit.socket_mode k mode) refl
    by_platform windows = ran windows _ refl
    by_platform (other name) = ran (other name) _ refl
