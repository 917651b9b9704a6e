-- ===== src/Vsock/Linux/Dial.antt =====
-- `Dial` and `Listen` of pkg/vsock on Linux: the retry loops end, and who owns the descriptor.
use virtsock.Common.{
  ap, ℕ, zero, suc, ◌+◌, ◌≤◌, ◌≡◌, refl, inl, inr, Bool-cases, false, Option, none, some, ◌∷◌,
  Result, ok, err, arith, Result-cases, ◌∙◌,
}
use virtsock.System.{
  Errno, eintr, SockAddr, vm, Kernel, ◌>>=◌, or_return, unless_error, History, connect, close,
  socket,
}
use virtsock.System.Descriptors.{
  is_interrupt, IsPatient, interrupts, open_fds, erase, erase_head, interrupt-eq,
}
use virtsock.Vsock.Linux.{
  close_fd, connect_loop, failed_connect, create_socket, new_vsock_conn, dial, af_vsock,
  stream_cloexec, Conn, Error, failed_close,
}

module _ (k : Kernel) where
  close_once :
      (m fd : ℕ) (h : History) (r : Option Errno)
      → k.on_close h fd ≡ r
      → is_interrupt r ≡ false
      → (e : Option Error) × (close_fd k (suc m) fd h ≡ some (e, close fd r ∷ h))
        × (open_fds (close fd r ∷ h) ≡ erase fd (open_fds h))
  unfolding close_fd open_fds
  close_once m fd h none q i = (none, rw (q, close_fd), refl)
  close_once m fd h (some e) q i =
      (some (failed_close e fd), rw (q, close_fd) (rw i refl), rw i refl)

  close_again :
      (m fd : ℕ) (h : History)
      → k.on_close h fd ≡ some eintr
      → close_fd k (suc m) fd h ≡ close_fd k m fd (close fd (some eintr) ∷ h)
  unfolding close_fd
  close_again m fd h q = rw (q, close_fd)

  connect_once :
      (m fd : ℕ) (sa : SockAddr) (h : History) (r : Option Errno)
      → k.on_connect h fd sa ≡ r
      → is_interrupt r ≡ false
      → connect_loop k (suc m) fd sa h ≡ some (r, connect fd sa r ∷ h)
  unfolding connect_loop
  connect_once m fd sa h none q i = rw (q, connect_loop)
  connect_once m fd sa h (some e) q i = rw (q, connect_loop) (rw i refl)

  connect_again :
      (m fd : ℕ) (sa : SockAddr) (h : History)
      → k.on_connect h fd sa ≡ some eintr
      → connect_loop k (suc m) fd sa h ≡ connect_loop k m fd sa (connect fd sa (some eintr) ∷ h)
  unfolding connect_loop
  connect_again m fd sa h q = rw (q, connect_loop)

  module _ (n : ℕ) (patient : IsPatient k n) where
    -- `closeFD` ends, and then the descriptor is free.
    pub close_fd_lem :
        (m fd : ℕ) (h : History)
        → n ≤ interrupts h + m
        → (e : Option Error) × (g : History) × (close_fd k (suc m) fd h ≡ some (e, g))
          × (open_fds g ≡ erase fd (open_fds h))
    unfolding interrupts open_fds
    close_fd_lem zero fd h f = elim (Bool-cases (is_interrupt (k.on_close h fd))) [
      | inl again ↦
          absurd (patient.closes h fd (omega arith) (interrupt-eq (k.on_close h fd) again))
      | inr real ↦
          let (e, eq, freed) = close_once zero fd h (k.on_close h fd) refl real in
          (e, close fd (k.on_close h fd) ∷ h, eq, freed)
    ]
    close_fd_lem (suc m) fd h f = elim (Bool-cases (is_interrupt (k.on_close h fd))) [
      | inl again ↦
          let (e, g, eq, freed) = close_fd_lem m fd (close fd (some eintr) ∷ h) (omega arith) in
          (e, g, close_again (suc m) fd h (interrupt-eq (k.on_close h fd) again) ∙ eq, freed)
      | inr real ↦
          let (e, eq, freed) = close_once (suc m) fd h (k.on_close h fd) refl real in
          (e, close fd (k.on_close h fd) ∷ h, eq, freed)
    ]

    -- The loop of `Dial` ends with the answer of its last call, which is not an interrupt.
    pub connect_loop_lem :
        (m fd : ℕ) (sa : SockAddr) (h : History)
        → n ≤ interrupts h + m
        → (r : Option Errno) × (g : History) × (connect_loop k (suc m) fd sa h
            ≡ some (r, connect fd sa r ∷ g))
          × (is_interrupt r ≡ false)
          × (open_fds g ≡ open_fds h)
    unfolding interrupts open_fds
    connect_loop_lem zero fd sa h f = elim (Bool-cases (is_interrupt (k.on_connect h fd sa))) [
      | inl again ↦
          absurd
            (patient.connects h fd sa (omega arith) (interrupt-eq (k.on_connect h fd sa) again))
      | inr real ↦ (k.on_connect h fd sa, h, connect_once zero fd sa h _ refl real, real, refl)
    ]
    connect_loop_lem (suc m) fd sa h f = elim (Bool-cases (is_interrupt (k.on_connect h fd sa))) [
      | inl again ↦
          let (r, g, eq, real, same) =
            connect_loop_lem m fd sa (connect fd sa (some eintr) ∷ h) (omega arith) in
          (
            r,
            g,
            connect_again (suc m) fd sa h (interrupt-eq (k.on_connect h fd sa) again) ∙ eq,
            real,
            same,
          )
      | inr real ↦ (k.on_connect h fd sa, h, connect_once (suc m) fd sa h _ refl real, real, refl)
    ]

-- What `Dial` to an address owes its caller, from history `h` to history `g`.
abbrev pub DialOwns : ℕ → ℕ → History → Result Error Conn → History → Type 0
DialOwns cid port h (ok c) g =
    (open_fds g ≡ c.fd ∷ open_fds h)
    × (c.remote ≡ some (record { cid = cid; port = port }))
    × ((g' : History) × (g ≡ connect c.fd (vm cid port) none ∷ g'))
DialOwns cid port h (err e) g = open_fds g ≡ open_fds h

module _ (k : Kernel) (n : ℕ) (patient : IsPatient k n) where
  dial_connected :
      (m cid port fd : ℕ) (h g : History) (r : Option Errno)
      → n ≤ m
      → k.on_socket h af_vsock stream_cloexec 0 ≡ ok fd
      → connect_loop k (suc m) fd (vm cid port) (socket af_vsock stream_cloexec 0 (ok fd) ∷ h)
        ≡ some (r, connect fd (vm cid port) r ∷ g)
      → open_fds g ≡ fd ∷ open_fds h
      → (q : Result Error Conn) × (f : History) × (dial k (suc m) cid port h ≡ some (q, f))
        × DialOwns cid port h q f
  unfolding dial open_fds
  dial_connected m cid port fd h g none le made eq own =
      let made_conn = new_vsock_conn fd none (some (record { cid = cid; port = port })) in
      (
        ok made_conn,
        connect fd (vm cid port) none ∷ g,
        rw (made, dial) (rw (eq, or_return, ◌>>=◌) refl),
        (own, refl, (g, refl)),
      )
  dial_connected m cid port fd h g (some e) le made eq own =
      let (_, f, closed, freed) =
        close_fd_lem k n patient m fd (connect fd (vm cid port) (some e) ∷ g) (omega arith) in
      (
        err (failed_connect e cid port),
        f,
        rw (made, dial) (rw (eq, or_return, ◌>>=◌) (rw (closed, unless_error, ◌>>=◌) refl)),
        freed ∙ ap (erase fd) own ∙ erase_head fd (open_fds h),
      )

  -- `Dial` of pkg/vsock returns if the kernel interrupts at most `n` calls and each of its retry
  -- loops may run more than `n` rounds. A connection owns the one descriptor that was opened, has
  -- the remote address asked for, and its last call was the `connect` that succeeded; with an error
  -- the open descriptors are those of before.
  pub dial-Owns :
      (m cid port : ℕ) (h : History)
      → n ≤ m
      → (q : Result Error Conn) × (g : History) × (dial k (suc m) cid port h ≡ some (q, g))
        × DialOwns cid port h q g
  unfolding open_fds dial
  dial-Owns m cid port h le = elim (Result-cases (k.on_socket h af_vsock stream_cloexec 0)) [
    | inl (fd, made) ↦
        let opened = socket af_vsock stream_cloexec 0 (ok fd) ∷ h in
        let (r, g, eq, _, same) =
          connect_loop_lem k n patient m fd (vm cid port) opened (omega arith) in
        dial_connected m cid port fd h g r le made eq same
    | inr (e, made) ↦ (
      err (create_socket e),
      socket af_vsock stream_cloexec 0 (err e) ∷ h,
      rw (made, dial) refl,
      refl,
    )
  ]
