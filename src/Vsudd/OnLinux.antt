-- ===== src/Vsudd/OnLinux.antt =====
-- The loop of `main` of cmd/vsudd/main.go over the forwards, with the two packages of sockets as they
-- are on Linux: each forward probes for Hyper-V sockets, if it has a GUID, and opens its listener.
pub mod Held
use virtsock.Common.{
  ℕ, Bool, true, false, Option, none, some, List, [], ◌∷◌, Result, ok, err, Text, codes, contains,
  equal, if◌then◌else◌,
}
use virtsock.System.{Kernel, Run, return, ◌>>=◌}
use virtsock.Fmt.{ScanError}
use virtsock.Strings.{parse_uint}
use virtsock.Hvsock.Guid.{Guid, from_string}
use virtsock.Hvsock.Linux as Hv
use virtsock.Vsock.Linux as V
use virtsock.Vsudd.Network.{Target, hvsock, vsock}
use virtsock.Vsudd.Forwards.{
  Forward, Fatal, cannot_forward, bad_guid, guid_listener, number_listener,
}

pub data ListenError : Type 0 where
  of_hvsock : Hv.Error → ListenError
  of_vsock : V.Error → ListenError

-- The calls of `log.Fatalf` in the loop.
pub data StartError : Type 0 where
  rejected : Fatal → StartError
  failed_to_bind : Target → ListenError → StartError

-- At the end: the listeners that have an accept loop, in order, each with its descriptor; `useHVsock`;
-- and why the program exits, if it does not wait.
pub record Served : Type 0 where
  pub listeners : List (Target × ℕ)
  pub use_hvsock : Bool
  pub failure : Option StartError

abbrev pub hv_result : Result Hv.Error Hv.Listener → Result ListenError ℕ
hv_result (ok l) = ok l.fd
hv_result (err e) = err (of_hvsock e)

abbrev pub v_result : Result V.Error V.Listener → Result ListenError ℕ
v_result (ok l) = ok l.fd
v_result (err e) = err (of_vsock e)

module _ (k : Kernel) where
  -- `hvsock.Supported` is asked behind the parsing of the GUID.
  abbrev pub guid_target : Text → Guid × Option ScanError → Run (Result Fatal (Target × Bool))
  guid_target s (g, some e) = return (err (bad_guid s e))
  guid_target s (g, none) = do
    supported ← Hv.supported k
    return (guid_listener supported s (g, none))

  unfoldable pub target_of : Forward → Run (Result Fatal (Target × Bool))
  unfolding from_string parse_uint
  target_of f =
      if equal f.net (codes "unix")
      then (if contains f.vsock_port b'-'
          then guid_target f.vsock_port (from_string f.vsock_port)
          else return (number_listener f.vsock_port (parse_uint f.vsock_port)))
      else return (err (cannot_forward f.net f.usock))

  -- `hvsock.Listen` and `vsock.Listen`.
  unfoldable pub listen_on : Target → Run (Result ListenError ℕ)
  listen_on (hvsock vm service) = do
    r ← Hv.listen k (record { vmid = vm; service_id = service })
    return (hv_result r)
  listen_on (vsock cid port) = do r ← V.listen k cid port; return (v_result r)

  abbrev pub died : Bool → StartError → Run Served
  died flag e = return (record { listeners = []; use_hvsock = flag; failure = some e })

  -- The end of a round, behind which the others follow.
  abbrev pub served : (Bool → Run Served) → Bool → Target → Bool → Result ListenError ℕ → Run Served
  served rest flag t flag' (err e) = died flag (failed_to_bind t e)
  served rest flag t flag' (ok fd) = do
    s ← rest flag'
    return (record s { listeners = (t, fd) ∷ s.listeners })

  abbrev pub opened : (Bool → Run Served) → Bool → Result Fatal (Target × Bool) → Run Served
  opened rest flag (err e) = died flag (rejected e)
  opened rest flag (ok (t, flag')) = do r ← listen_on t; served rest flag t flag' r

  -- The loop, from a value of `useHVsock`.
  unfoldable pub serve : List Forward → Bool → Run Served
  serve [] flag = return (record { listeners = []; use_hvsock = flag; failure = none })
  serve (f ∷ fs) flag = do r ← target_of f; opened (serve fs) flag r
