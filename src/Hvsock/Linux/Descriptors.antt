-- ===== src/Hvsock/Linux/Descriptors.antt =====
-- Which calls of pkg/hvsock on Linux free the descriptors that they open.
use virtsock.Common.{
  ℕ, zero, suc, ◌≤◌, ◌≡◌, refl, ap, ◌∙◌, fun_ext, inl, inr, Bool, false, Option, none, some, ◌∷◌,
  Result, ok, err, ◌==◌, arith, Option-cases, Result-cases,
}
use virtsock.System.{
  Errno, SockAddr, Kernel, ◌>>=◌, or_return, History, connect, close, socket, getsockname,
}
use virtsock.System.Descriptors.{is_interrupt, IsPatient, open_fds, erase_head}
use virtsock.Hvsock.Addr.{Addr, guid_zero}
use virtsock.Hvsock.Linux.{
  connect_loop, dial, supported, sockaddr, Conn, Error, bare, failed_connect, new_hvsock_conn,
  hvsock_af, hvsock_raw, sock_stream, sockaddr_size,
}
use virtsock.Vsock.Linux.Dial.{connect_loop_lem}
use virtsock.Vsock.Linux

-- The loop is that of pkg/vsock.
connect_loop_eq :
    (k : Kernel) (m fd : ℕ) (sa : SockAddr) → connect_loop k m fd sa ≡ Linux.connect_loop k m fd sa
unfolding connect_loop Linux.connect_loop
connect_loop_eq k zero fd sa = refl
connect_loop_eq k (suc m) fd sa = fun_ext λ h. elim (Option-cases (k.on_connect h fd sa)) [
  | inl q ↦ rw (q, connect_loop, Linux.connect_loop) refl
  | inr (e, q) ↦ rw (q, connect_loop, Linux.connect_loop) (rw (connect_loop_eq k m fd sa) refl)
]

-- What `Dial` leaves open, from history `h` to history `g`, for each kind of result.
abbrev pub DialLeaks : Addr → History → Result Error Conn → History → Type 0
DialLeaks a h (ok c) g =
    (open_fds g ≡ c.fd ∷ open_fds h)
    × (c.remote ≡ a)
    × ((f : History) × (g ≡ connect c.fd (sockaddr a) none ∷ f))
DialLeaks a h (err (bare e)) g = open_fds g ≡ open_fds h
DialLeaks a h (err (failed_connect e b)) g =
    (fd : ℕ) × (open_fds g ≡ fd ∷ open_fds h)
    × (b ≡ a)
    × ((f : History) × (g ≡ connect fd (sockaddr a) (some e) ∷ f))
DialLeaks a h (err _) g = ⊥

dial_connected :
    (k : Kernel) (m fd : ℕ) (a : Addr) (h g : History) (r : Option Errno)
    → k.on_socket h hvsock_af sock_stream hvsock_raw ≡ ok fd
    → connect_loop k m fd (sockaddr a) (socket hvsock_af sock_stream hvsock_raw (ok fd) ∷ h)
      ≡ some (r, connect fd (sockaddr a) r ∷ g)
    → open_fds g ≡ fd ∷ open_fds h
    → (q : Result Error Conn) × (f : History) × (dial k m a h ≡ some (q, f)) × DialLeaks a h q f
unfolding dial open_fds
dial_connected k m fd a h g none made eq own =
    let c = new_hvsock_conn fd (record { vmid = guid_zero; service_id = guid_zero }) a in
    (
      ok c,
      connect fd (sockaddr a) none ∷ g,
      rw (made, dial) (rw (eq, or_return, ◌>>=◌) refl),
      (own, refl, (g, refl)),
    )
dial_connected k m fd a h g (some e) made eq own = (
  err (failed_connect e a),
  connect fd (sockaddr a) (some e) ∷ g,
  rw (made, dial) (rw (eq, or_return, ◌>>=◌) refl),
  (fd, own, refl, (g, refl)),
)

-- `Dial` of a Hyper-V socket returns if its retry loop may run more rounds than the kernel
-- interrupts calls. A connection owns the one descriptor that it opened; when `connect` fails, that
-- descriptor stays open, though the caller gets only the error.
pub dial-DialLeaks :
    (k : Kernel) (n m : ℕ) (a : Addr) (h : History)
    → IsPatient k n
    → n ≤ m
    → (q : Result Error Conn) × (g : History) × (dial k (suc m) a h ≡ some (q, g))
      × DialLeaks a h q g
unfolding dial open_fds
dial-DialLeaks k n m a h patient le =
    elim (Result-cases (k.on_socket h hvsock_af sock_stream hvsock_raw)) [
      | inl (fd, made) ↦
          let opened = socket hvsock_af sock_stream hvsock_raw (ok fd) ∷ h in
          let (r, g, eq, _, same) =
            connect_loop_lem k n patient m fd (sockaddr a) opened (omega arith) in
          dial_connected k (suc m) fd a h g r made
            (ap (λ f. f opened) (connect_loop_eq k (suc m) fd (sockaddr a)) ∙ eq) same
      | inr (e, made) ↦ (
        err (bare e),
        socket hvsock_af sock_stream hvsock_raw (err e) ∷ h,
        rw (made, dial) refl,
        refl,
      )
    ]

abbrev answer : Result Errno ℕ → Bool
answer size = elim size [ err e ↦ false | ok n ↦ n == sockaddr_size ]

-- `Supported` closes the socket that it opens to probe with, whatever the probe answers.
pub supported-open_fds :
    (k : Kernel) (h : History)
    → ((g : History) (fd : ℕ) → is_interrupt (k.on_close g fd) ≡ false)
    → (b : Bool) × (g : History) × (supported k h ≡ some (b, g)) × (open_fds g ≡ open_fds h)
unfolding supported open_fds
supported-open_fds k h p = elim (Result-cases (k.on_socket h hvsock_af sock_stream hvsock_raw)) [
  | inl (fd, made) ↦
      let probed =
        getsockname fd (k.on_getsockname (socket hvsock_af sock_stream hvsock_raw (ok fd) ∷ h) fd)
        ∷ socket hvsock_af sock_stream hvsock_raw (ok fd)
        ∷ h in
      (
        answer (k.on_getsockname (socket hvsock_af sock_stream hvsock_raw (ok fd) ∷ h) fd),
        close fd (k.on_close probed fd) ∷ probed,
        rw (made, supported) refl,
        rw (p probed fd) (erase_head fd (open_fds h)),
      )
  | inr (e, made) ↦
      (false, socket hvsock_af sock_stream hvsock_raw (err e) ∷ h, rw (made, supported) refl, refl)
]
