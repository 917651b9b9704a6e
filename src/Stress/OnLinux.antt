-- ===== src/Stress/OnLinux.antt =====
-- The sequential clients of cmd/sock_stress on Linux, run without `-e`, as far as they make, half
-- close and close connections of the two packages: `Client` of stream_echo.go. What the transfer
-- between comes to is a parameter; Stress/Echo has it.
pub mod Balance
pub mod Server
pub mod Requests
pub mod Serving
use virtsock.Common.{ℕ, Bool, true, false, not, none, List, [], ◌∷◌, Result, ok, err, if◌then◌else◌}
use virtsock.System.{Kernel, Run, return, ◌>>=◌, ◌>>◌}
use virtsock.Hvsock.Linux as Hv
use virtsock.Vsock.Linux as V
use virtsock.Hvsock.Addr
use virtsock.Vsock
use virtsock.Stress.HvsockAddr.{HvsockAddr}

-- The sockets of the two packages.
pub data VmSock : Type 0 where
  vsock : Vsock.Addr → VmSock
  hvsock : HvsockAddr → VmSock

-- What the two loops of `Client` come to: they end with no call left behind, or with a read or a
-- write that has timed out and is still running, or, as with empty batches, they never end.
pub data Transfer : Type 0 where
  completes leaves_call never_ends : Transfer

-- How `Client` ends: behind a connection, whose descriptor the system has back or gets when the call
-- left behind returns, or with the error of `Dial`.
pub data Ended : Type 0 where
  closed closing : Ended
  not_dialled_vsock : V.Error → Ended
  not_dialled_hvsock : Hv.Error → Ended

module _ (k : Kernel) (fuel : ℕ) where
  -- What follows `Dial`: `CloseWrite` behind the data, and the deferred `Close`. With a call left
  -- behind `Close` of `os.File` returns, but the descriptor is closed only when that call does.
  abbrev pub after_vsock : Transfer → Result V.Error V.Conn → Run Ended
  after_vsock t (err e) = return (not_dialled_vsock e)
  after_vsock completes (ok c) = do V.close_write k c; V.close k false c; return closed
  after_vsock leaves_call (ok c) = do V.close_write k c; return closing
  after_vsock never_ends (ok c) = λ h. none

  abbrev pub after_hvsock : Transfer → Result Hv.Error Hv.Conn → Run Ended
  after_hvsock t (err e) = return (not_dialled_hvsock e)
  after_hvsock completes (ok c) = do Hv.close_write k c; Hv.close k false c; return closed
  after_hvsock leaves_call (ok c) = do Hv.close_write k c; return closing
  after_hvsock never_ends (ok c) = λ h. none

  unfoldable pub vsock_client : Transfer → Vsock.Addr → Run Ended
  vsock_client t a = do q ← V.dial k fuel a.cid a.port; after_vsock t q

  unfoldable pub hvsock_client : Transfer → Addr.Addr → Run Ended
  hvsock_client t a = do q ← Hv.dial k fuel a; after_hvsock t q

  -- `Client`; the flag is `useHVSock`.
  unfoldable pub client : Bool → VmSock → Transfer → Run Ended
  client use_hvsock (vsock a) t = vsock_client t a
  client use_hvsock (hvsock a) t =
      if not use_hvsock then vsock_client t a.v_addr else hvsock_client t a.hv_addr

  -- One after the other, for a list of connection numbers, each with its transfer.
  unfoldable pub clients : Bool → VmSock → (ℕ → Transfer) → List ℕ → Run (List Ended)
  clients use_hvsock s ts [] = return []
  clients use_hvsock s ts (n ∷ ns) = do
    e ← client use_hvsock s (ts n)
    es ← clients use_hvsock s ts ns
    return (e ∷ es)
