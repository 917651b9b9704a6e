-- ===== src/Hvsock/Windows/Calls/Failures.antt =====
-- The failure that a wrapper misses where words have 64 bits.
use virtsock.Common.{
  ℕ, ◌-◌, ◌^◌, ◌≡◌, refl, ap, ◌∙◌, subst, Bool, true, false, none, some, Result, ok, err, ◌∷◌,
  arith, ◌==◌, if◌then◌else◌,
}
use virtsock.System
use virtsock.System.{◌>>=◌, or_return, Errno, SockAddr, History, Kernel}
use virtsock.System.Descriptors.{open_fds}
use virtsock.Hvsock.Windows.Calls.{errno_err, error_if, sys_accept, Libraries, accepted, kernel}
use virtsock.Hvsock.Windows.Sockets.{Listener, Conn, Error, bare, accept}
use virtsock.Hvsock.Windows.Sockets.Handles.{IsLater, AcceptFails, AcceptHandles, accept_lem}

-- The error of a wrapper whose function has failed.
abbrev pub error_of : Errno → Errno → Errno
error_of einval e1 = if e1 == 0 then einval else e1

error_if_lem :
    (einval : Errno) (failed : Bool) (e1 : Errno)
    → error_if einval failed e1 ≡ (if failed then some (error_of einval e1) else none)
unfolding errno_err
error_if_lem einval failed e1 = ground arith

-- INVALID_SOCKET, which `accept` returns when it fails: a word with all its bits set.
abbrev pub invalid_socket : Bool → ℕ
invalid_socket false = 2 ^ 32 - 1
invalid_socket true = 2 ^ 64 - 1

abbrev pub AfterFailure :
    Kernel → ℕ → SockAddr → Bool → Errno → History → Result Error Conn → History → Type 0
AfterFailure k fd sa false e h q g = (q ≡ err (bare e)) × (open_fds g ≡ open_fds h)
AfterFailure k fd sa true e h (ok c) g = c.fd ≡ invalid_socket true
AfterFailure k fd sa true e h (err x) g =
    (open_fds g ≡ invalid_socket true ∷ open_fds h)
    × IsLater k (invalid_socket true) (System.accept fd (ok (invalid_socket true, sa)) ∷ h) x

failed_accept :
    (k : Kernel) (v : Listener) (h : History) (e : Errno)
    → k.on_accept h v.fd ≡ err e
    → (g : History) × (accept k v h ≡ some (err (bare e), g)) × (open_fds g ≡ open_fds h)
unfolding accept open_fds
failed_accept k v h e taken = (System.accept v.fd (err e) ∷ h, rw (taken, accept) refl, refl)

missed :
    (k : Kernel) (v : Listener) (h : History) (sa : SockAddr) (e : Errno) (q : Result Error Conn)
    (g : History)
    → k.on_accept h v.fd ≡ ok (invalid_socket true, sa)
    → AcceptHandles k v h q g
    → AfterFailure k v.fd sa true e h q g
missed k v h sa e (ok c) g taken (own, local, (sa', is, remote)) = cc
missed k v h sa e (err x) g taken leaks = subst (λ r. AcceptFails k v.fd r x h g) taken leaks

-- When `accept` of the system fails, `Accept` of a listener returns that error and opens nothing if
-- words have 32 bits. With words of 64 bits it misses the failure: it goes on with INVALID_SOCKET
-- as if that were a connection's handle, and if it returns an error, that is the answer of a call by
-- which `newHVsockConn` ties the handle to the completion port.
pub accept-AfterFailure :
    (wide : Bool) (einval : Errno) (l : Libraries) (v : Listener) (h : History) (e1 : Errno)
    (sa : SockAddr)
    → l.accept h v.fd ≡ (record { r1 = invalid_socket wide; e1 = e1 }, sa)
    → (q : Result Error Conn) × (g : History) × (accept (kernel einval l) v h ≡ some (q, g))
      × AfterFailure (kernel einval l) v.fd sa wide (error_of einval e1) h q g
unfolding sys_accept
accept-AfterFailure false einval l v h e1 sa failed =
    let taken : (kernel einval l).on_accept h v.fd ≡ err (error_of einval e1) =
      ap (λ p. accepted (sys_accept einval p.0) p.1) failed
      ∙ ap (λ x. accepted (invalid_socket false, x) sa) (error_if_lem einval true e1) in
    let (g, eq, same) = failed_accept (kernel einval l) v h (error_of einval e1) taken in
    (err (bare (error_of einval e1)), g, eq, (refl, same))
accept-AfterFailure true einval l v h e1 sa failed =
    let k = kernel einval l in
    let taken : k.on_accept h v.fd ≡ ok (invalid_socket true, sa) =
      ap (λ p. accepted (sys_accept einval p.0) p.1) failed in
    let (q, g, eq, handles) = accept_lem k v h in
    (q, g, eq, missed k v h sa (error_of einval e1) q g taken handles)
