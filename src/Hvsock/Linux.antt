-- ===== src/Hvsock/Linux.antt =====
-- pkg/hvsock/hvsock_linux.go.
pub mod Descriptors
pub mod Session
pub mod Accept
pub mod Listen
use virtsock.Common.{
  ℕ, zero, suc, ◌+◌, ◌≡◌, Bool, true, false, ◌||◌, not, Option, none, some, List, [], ◌∷◌, Result,
  ok, err, ◌==◌, if◌then◌else◌, Bytes,
}
use virtsock.System.OsFile.{FileError, fd_of, close_file}
use virtsock.System.{
  Errno, eintr, SockAddr, vm, hv, other_family, shut_rd, shut_wr, Kernel, Run, return, ◌>>=◌, ◌>>◌,
  or_return, unless_error, call_socket, call_connect, call_bind, call_listen, call_accept,
  call_getsockname, call_shutdown, call_dup_cloexec, call_close,
}
use virtsock.Hvsock.Guid.{Guid}
use virtsock.Hvsock.Addr.{Addr, copy_guid, guid_zero}
use virtsock.Hvsock.Write.{WriteError}
use virtsock.Hvsock.Write

-- `hvsockAF` and `hvsockRaw`; `SOCK_STREAM` and `SOMAXCONN` of Linux.
abbrev pub hvsock_af : ℕ
hvsock_af = 43

abbrev pub hvsock_raw : ℕ
hvsock_raw = 1

abbrev pub sock_stream : ℕ
sock_stream = 1

abbrev pub somaxconn : ℕ
somaxconn = 128

-- `sizeof(struct sockaddr_hv)`.
abbrev pub sockaddr_size : ℕ
sockaddr_size = 2 + 2 + 16 + 16

pub data Error : Type 0 where
  bare : Errno → Error
  failed_connect failed_bind failed_listen failed_accept : Errno → Addr → Error
  fcntl : Errno → Error

-- `hvsockConn`: the descriptor of its file, and the two addresses.
pub record Conn : Type 0 where
  pub fd : ℕ
  pub local : Addr
  pub remote : Addr

-- `newHVsockConn`.
abbrev pub new_hvsock_conn : ℕ → Addr → Addr → Conn
new_hvsock_conn fd local remote = record { fd = fd; local = local; remote = remote }

pub record Listener : Type 0 where
  pub fd : ℕ
  pub local : Addr

-- The `struct sockaddr_hv` that `Dial` and `Listen` fill in.
unfoldable pub sockaddr : Addr → SockAddr
unfolding copy_guid
sockaddr a = hv hvsock_af 0 (copy_guid a.vmid) (copy_guid a.service_id)

-- `guidFromC`.
unfoldable pub guid_from_c : List ℕ → Guid
unfolding copy_guid
guid_from_c cg = copy_guid cg

-- The address in the structure that `accept` has filled in. A socket of this family gives a
-- `sockaddr_hv`; the other cases stand for a structure that was not filled in, which is zero.
unfoldable pub remote_of : SockAddr → Addr
unfolding guid_from_c
remote_of (hv family reserved vm_id service) = record {
  vmid = guid_from_c vm_id;
  service_id = guid_from_c service;
}
remote_of _ = record { vmid = guid_zero; service_id = guid_zero }

module _ (k : Kernel) where
  -- `Supported`.
  unfoldable pub supported : Run Bool
  supported = do
    made ← call_socket k hvsock_af sock_stream hvsock_raw
    elim made [
      | err e ↦ return false
      | ok fd ↦ do
        size ← call_getsockname k fd
        call_close k fd
        return (elim size [ err e ↦ false | ok n ↦ n == sockaddr_size ])
    ]

  -- The loop of `Dial` around `connect`, up to an answer that is not an interrupt.
  pub connect_loop : ℕ → ℕ → SockAddr → Run (Option Errno)
  connect_loop zero fd sa = λ h. none
  connect_loop (suc fuel) fd sa = do
    r ← call_connect k fd sa
    elim r [
      | none ↦ return none
      | some e ↦
          let again = connect_loop fuel fd sa in if e == eintr then again else return (some e)
    ]

  -- `Dial`.
  unfoldable pub dial : ℕ → Addr → Run (Result Error Conn)
  dial fuel raddr = do
    made ← call_socket k hvsock_af sock_stream hvsock_raw
    or_return made bare λ fd. do
      failure ← connect_loop fuel fd (sockaddr raddr)
      unless_error failure (λ e. return (err (failed_connect e raddr)))
          (return
            (ok (new_hvsock_conn fd (record { vmid = guid_zero; service_id = guid_zero }) raddr)))

  -- `Listen`.
  unfoldable pub listen : Addr → Run (Result Error Listener)
  listen addr = do
    made ← call_socket k hvsock_af sock_stream hvsock_raw
    or_return made bare λ fd. do
      unbound ← call_bind k fd (sockaddr addr)
      unless_error unbound (λ e. return (err (failed_bind e addr)))
          (do
            deaf ← call_listen k fd somaxconn
            unless_error deaf (λ e. return (err (failed_listen e addr)))
                (return (ok (record { fd = fd; local = addr }))))

  -- `hvsockListener.Accept`.
  unfoldable pub accept : Listener → Run (Result Error Conn)
  accept v = do
    taken ← call_accept k v.fd
    or_return taken (λ e. failed_accept e v.local)
        λ p. return (ok (new_hvsock_conn p.0 v.local (remote_of p.1)))

  -- `hvsockListener.Close`.
  unfoldable pub close_listener : Listener → Run (Option Errno)
  close_listener v = call_close k v.fd

  -- `CloseRead` and `CloseWrite`.
  unfoldable pub close_read : Conn → Run (Option Errno)
  close_read v = call_shutdown k v.fd shut_rd

  unfoldable pub close_write : Conn → Run (Option Errno)
  close_write v = call_shutdown k v.fd shut_wr

  -- `File`, and `Close`, with whether the connection's file has been closed.
  unfoldable pub file : Bool → Conn → Run (Result Error ℕ)
  file closed v = do
    copy ← call_dup_cloexec k (fd_of closed v.fd)
    or_return copy fcntl λ fd. return (ok fd)

  unfoldable pub close : Bool → Conn → Run (Option FileError × Bool)
  close closed v = close_file k closed v.fd

-- `Write`, over the write of the connection's file.
unfoldable pub write :
    {S E : Type 0}
    → (Bytes → S → (ℕ × Option E) × S)
    → Bytes
    → S
    → Option ((ℕ × Option (WriteError E)) × S)
write file_write = Write.write file_write
