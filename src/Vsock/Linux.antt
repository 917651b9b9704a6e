-- ===== src/Vsock/Linux.antt =====
-- pkg/vsock/vsock_linux.go. `Run` threads the history of system calls.
pub mod Dial
pub mod Session
pub mod Listen
use virtsock.Common.{
  ℕ, zero, suc, ◌+◌, ◌≡◌, Bool, true, false, Option, none, some, List, [], ◌∷◌, Result, ok, err,
  ◌==◌, if◌then◌else◌,
}
use virtsock.System.OsFile.{FileError, fd_of, close_file}
use virtsock.System.{
  Errno, eintr, SockAddr, vm, hv, other_family, How, shut_rd, shut_wr, Kernel, Run, return, ◌>>=◌,
  ◌>>◌, or_return, unless_error, call_socket, call_connect, call_bind, call_listen, call_accept,
  call_shutdown, call_dup_cloexec, call_close,
}
use virtsock.System.Descriptors.{is_interrupt}
use virtsock.Vsock.{Addr}

-- `AF_VSOCK`, `SOCK_STREAM|SOCK_CLOEXEC`, `SOMAXCONN` of Linux.
abbrev pub af_vsock : ℕ
af_vsock = 40

abbrev pub stream_cloexec : ℕ
stream_cloexec = 1 + 0x80000

abbrev pub somaxconn : ℕ
somaxconn = 128

pub data Error : Type 0 where
  bare : Errno → Error
  create_socket : Errno → Error
  failed_connect failed_bind failed_listen : Errno → ℕ → ℕ → Error
  failed_close : Errno → ℕ → Error
  fcntl : Errno → Error

-- `vsockConn`: the descriptor of its file, and the two addresses, which may be nil.
pub record Conn : Type 0 where
  pub fd : ℕ
  pub local : Option Addr
  pub remote : Option Addr

-- `newVsockConn`.
abbrev pub new_vsock_conn : ℕ → Option Addr → Option Addr → Conn
new_vsock_conn fd local remote = record { fd = fd; local = local; remote = remote }

pub record Listener : Type 0 where
  pub fd : ℕ
  pub local : Addr

-- `sockaddrToVsock`.
unfoldable pub sockaddr_to_vsock : SockAddr → Option Addr
sockaddr_to_vsock (vm cid port) = some (record { cid = cid; port = port })
sockaddr_to_vsock _ = none

module _ (k : Kernel) where
  -- `closeFD`: the loop repeats while the call is interrupted.
  unfoldable pub close_fd : ℕ → ℕ → Run (Option Error)
  close_fd zero fd = λ h. none
  close_fd (suc fuel) fd = do
    r ← call_close k fd
    elim r [
      | none ↦ return none
      | some e ↦
          let again = close_fd fuel fd in
          if e == eintr then again else return (some (failed_close e fd))
    ]

  -- The loop of `Dial` around `unix.Connect`, up to an answer that is not an interrupt.
  unfoldable pub connect_loop : ℕ → ℕ → SockAddr → Run (Option Errno)
  connect_loop zero fd sa = λ h. none
  connect_loop (suc fuel) fd sa = do
    r ← call_connect k fd sa
    elim r [
      | none ↦ return none
      | some e ↦
          let again = connect_loop fuel fd sa in if e == eintr then again else return (some e)
    ]

  -- `Dial`.
  unfoldable pub dial : ℕ → ℕ → ℕ → Run (Result Error Conn)
  dial fuel cid port = do
    made ← call_socket k af_vsock stream_cloexec 0
    or_return made create_socket λ fd. do
      failure ← connect_loop fuel fd (vm cid port)
      unless_error failure (λ e. do close_fd fuel fd; return (err (failed_connect e cid port)))
          (return (ok (new_vsock_conn fd none (some (record { cid = cid; port = port })))))

  -- `Listen`.
  unfoldable pub listen : ℕ → ℕ → Run (Result Error Listener)
  listen cid port = do
    made ← call_socket k af_vsock stream_cloexec 0
    or_return made bare λ fd. do
      unbound ← call_bind k fd (vm cid port)
      unless_error unbound (λ e. return (err (failed_bind e cid port)))
          (do
            deaf ← call_listen k fd somaxconn
            unless_error deaf (λ e. return (err (failed_listen e cid port)))
                (return (ok (record { fd = fd; local = record { cid = cid; port = port } }))))

  -- `vsockListener.Accept`.
  unfoldable pub accept : Listener → Run (Result Error Conn)
  unfolding sockaddr_to_vsock
  accept v = do
    taken ← call_accept k v.fd
    or_return taken bare
        λ p. return (ok (new_vsock_conn p.0 (some v.local) (sockaddr_to_vsock p.1)))

  -- `vsockListener.Close`: one attempt.
  unfoldable pub close_listener : Listener → Run (Option Errno)
  close_listener v = call_close k v.fd

  -- `CloseRead` and `CloseWrite`.
  unfoldable pub close_read : Conn → Run (Option Errno)
  close_read v = call_shutdown k v.fd shut_rd

  unfoldable pub close_write : Conn → Run (Option Errno)
  close_write v = call_shutdown k v.fd shut_wr

  -- `File`, and `Close`, with whether the connection's file has been closed.
  unfoldable pub file : Bool → Conn → Run (Result Error ℕ)
  file closed v = do
    copy ← call_dup_cloexec k (fd_of closed v.fd)
    or_return copy fcntl λ fd. return (ok fd)

  unfoldable pub close : Bool → Conn → Run (Option FileError × Bool)
  close closed v = close_file k closed v.fd
