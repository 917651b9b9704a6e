-- ===== src/Hvsock/Windows/Sockets.antt =====
-- `Dial`, `Listen` and `Accept` of Hyper-V sockets on Windows, with `newHVsockConn`. A handle is
-- named by a number, as a descriptor is.
pub mod Handles
pub mod Listening
use virtsock.Common.{ℕ, ◌+◌, Bool, true, Option, none, some, List, Result, ok, err}
use virtsock.System.{
  Errno, SockAddr, hv, shut_rd, shut_wr, Kernel, Run, return, ◌>>=◌, ◌>>◌, or_return, unless_error,
  call_socket, call_connect, call_bind, call_listen, call_accept, call_shutdown, call_close,
  call_associate, call_set_modes,
}
use virtsock.Hvsock.Addr.{Addr, copy_guid, guid_zero}

-- `hvsockAF` and `hvsockRaw`; `SOCK_STREAM` and `SOMAXCONN` of Windows.
abbrev pub hvsock_af : ℕ
hvsock_af = 34

abbrev pub hvsock_raw : ℕ
hvsock_raw = 1

abbrev pub sock_stream : ℕ
sock_stream = 1

abbrev pub somaxconn : ℕ
somaxconn = 0x7fffffff

pub data Error : Type 0 where
  bare : Errno → Error
  failed_connect failed_bind failed_listen : Errno → Addr → Error

-- What of `hvsockConn` is set when it is made.
pub record Conn : Type 0 where
  pub fd : ℕ
  pub local : Addr
  pub remote : Addr

pub record Listener : Type 0 where
  pub fd : ℕ
  pub local : Addr

-- `Supported`.
abbrev pub supported : Bool
supported = true

-- `Addr.sockaddr`, into a `rawSockaddrHyperv`.
unfoldable pub sockaddr : Addr → SockAddr
unfolding copy_guid
sockaddr a = hv hvsock_af 0 (copy_guid a.vmid) (copy_guid a.service_id)

-- The address in the structure that `accept` has filled in, or in a zero structure if it has not.
unfoldable pub remote_of : SockAddr → Addr
unfolding copy_guid
remote_of (hv family reserved vm_id service) = record {
  vmid = copy_guid vm_id;
  service_id = copy_guid service;
}
remote_of _ = record { vmid = guid_zero; service_id = guid_zero }

module _ (k : Kernel) where
  -- `newHVsockConn`, where the completion port has been made.
  unfoldable pub new_hvsock_conn : ℕ → Addr → Addr → Run (Result Error Conn)
  new_hvsock_conn fd local remote = do
    apart ← call_associate k fd
    unless_error apart (λ e. return (err (bare e)))
        (do
          unset ← call_set_modes k fd
          unless_error unset (λ e. return (err (bare e)))
              (return (ok (record { fd = fd; local = local; remote = remote }))))

  -- `Dial`.
  unfoldable pub dial : Addr → Run (Result Error Conn)
  dial raddr = do
    made ← call_socket k hvsock_af sock_stream hvsock_raw
    or_return made bare λ fd. do
      failure ← call_connect k fd (sockaddr raddr)
      unless_error failure (λ e. return (err (failed_connect e raddr)))
          (new_hvsock_conn fd (record { vmid = guid_zero; service_id = guid_zero }) raddr)

  -- `Listen`.
  unfoldable pub listen : Addr → Run (Result Error Listener)
  listen addr = do
    made ← call_socket k hvsock_af sock_stream hvsock_raw
    or_return made bare λ fd. do
      unbound ← call_bind k fd (sockaddr addr)
      unless_error unbound (λ e. return (err (failed_bind e addr)))
          (do
            deaf ← call_listen k fd somaxconn
            unless_error deaf (λ e. return (err (failed_listen e addr)))
                (return (ok (record { fd = fd; local = addr }))))

  -- `hvsockListener.Accept`.
  unfoldable pub accept : Listener → Run (Result Error Conn)
  accept v = do
    taken ← call_accept k v.fd
    or_return taken bare λ p. new_hvsock_conn p.0 v.local (remote_of p.1)

  -- `hvsockListener.Close`.
  unfoldable pub close_listener : Listener → Run (Option Errno)
  close_listener v = call_close k v.fd

  -- `CloseRead` and `CloseWrite`.
  unfoldable pub close_read : Conn → Run (Option Errno)
  close_read v = call_shutdown k v.fd shut_rd

  unfoldable pub close_write : Conn → Run (Option Errno)
  close_write v = call_shutdown k v.fd shut_wr
