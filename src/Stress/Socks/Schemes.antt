-- ===== src/Stress/Socks/Schemes.antt =====
-- Which sockets a scheme stands for.
use virtsock.Common.{
  Bool, true, false, ◌≡◌, refl, sym, ap, ◌∙◌, Option, none, some, Result, ok, err, Text, codes,
  equal, equal_iff, Bool-cases, inl, inr,
}
use virtsock.Vsock
use virtsock.Stress.HvsockAddr.{HvsockAddr}
use virtsock.Stress.VsockAddr
use virtsock.Stress.HvsockAddr
use virtsock.Stress.Socks.{
  Sock, tcp, udp, unix, NetAddr, Url, Host, sock_of, is_udp, is_tcp, as_vsock, as_hvsock, resolved,
}

-- Whether a socket is one of datagrams.
abbrev pub is_datagram : Sock → Bool
is_datagram (udp a) = true
is_datagram _ = false

resolved-datagram :
    (make : NetAddr → Sock) (b : Bool) (net s : Text) (r : Option Text) {k : Sock}
    → ((a : NetAddr) → is_datagram (make a) ≡ b)
    → resolved make net s r ≡ ok k
    → is_datagram k ≡ b
resolved-datagram make b net s none h e = cc
resolved-datagram make b net s (some a) h e = cc (h (record { net = net; addr = a }))

as_vsock-datagram :
    (r : Result VsockAddr.Fatal Vsock.Addr) {k : Sock} → as_vsock r ≡ ok k → is_datagram k ≡ false
as_vsock-datagram (ok a) e = cc
as_vsock-datagram (err x) e = cc

as_hvsock-datagram :
    (r : Result HvsockAddr.Fatal HvsockAddr) {k : Sock} → as_hvsock r ≡ ok k → is_datagram k ≡ false
as_hvsock-datagram (ok a) e = cc
as_hvsock-datagram (err x) e = cc

-- The schemes are different texts.
not_udp : (s t : Text) → equal s t ≡ true → is_udp t ≡ false → is_udp s ≡ false
not_udp s t e h = ap is_udp ((equal_iff s t).0 e) ∙ h

tcp-not_udp : (s : Text) → is_tcp s ≡ true → is_udp s ≡ false
tcp-not_udp s h = elim (Bool-cases (equal s (codes "tcp"))) [
  | inl e ↦ not_udp s (codes "tcp") e refl
  | inr n ↦ elim (Bool-cases (equal s (codes "tcp4"))) [
    | inl e ↦ not_udp s (codes "tcp4") e refl
    | inr m ↦ not_udp s (codes "tcp6") (rw (n, m) at h) refl
  ]
]

-- A scheme gives a socket of datagrams exactly if it is one of the three of UDP.
pub sock_of-is_datagram :
    (h : Host) (u : Url) {k : Sock} → sock_of h u ≡ ok k → is_datagram k ≡ is_udp u.scheme
unfolding sock_of
sock_of-is_datagram h u {k} e = elim (Bool-cases (equal u.scheme (codes "vsock"))) [
  | inl is ↦
      as_vsock-datagram (VsockAddr.parse h.darwin u.host) (rw is at e)
      ∙ sym (not_udp u.scheme (codes "vsock") is refl)
  | inr n1 ↦ elim (Bool-cases (equal u.scheme (codes "hvsock"))) [
    | inl is ↦
        as_hvsock-datagram (HvsockAddr.parse h.use_hvsock u.host) (rw (n1, is) at e)
        ∙ sym (not_udp u.scheme (codes "hvsock") is refl)
    | inr n2 ↦ elim (Bool-cases (is_tcp u.scheme)) [
      | inl is ↦
          resolved-datagram tcp false u.scheme _ _ (λ a. refl) (rw (n1, n2, is) at e)
          ∙ sym (tcp-not_udp u.scheme is)
      | inr n3 ↦ elim (Bool-cases (is_udp u.scheme)) [
        | inl is ↦
            resolved-datagram udp true u.scheme _ _ (λ a. refl) (rw (n1, n2, n3, is) at e) ∙ sym is
        | inr n4 ↦ elim (Bool-cases (equal u.scheme (codes "unix"))) [
          | inl is ↦
              let same : unix u.path ≡ k = cc (rw (n1, n2, n3, n4, is) at e) in
              ap is_datagram (sym same) ∙ sym n4
          | inr n5 ↦ let impossible = rw (n1, n2, n3, n4, n5) at e in cc
        ]
      ]
    ]
  ]
]
