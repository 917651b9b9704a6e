-- ===== src/Stress/OnLinux/Server.antt =====
-- `streamEcho.Server` of cmd/sock_stress/stream_echo.go on Linux, with its goroutines
-- `handleRequest`, as far as they make and close connections of the two packages. The order of what
-- happens is given: when the loop accepts, and which request ends next, so that its deferred `Close`
-- runs. The program runs without the flag `-e`.
use virtsock.Common.{
  ℕ, zero, suc, ◌+◌, Bool, true, false, not, Option, none, some, List, [], ◌∷◌, Result, ok, err,
  if◌then◌else◌,
}
use virtsock.System.{Kernel, Run, return, ◌>>=◌, ◌>>◌}
use virtsock.System.Methods.{Methods}
use virtsock.Hvsock.Addr
use virtsock.Hvsock.Linux as Hv
use virtsock.Hvsock.Linux.Session as HvSession
use virtsock.Vsock
use virtsock.Vsock.Linux as V
use virtsock.Vsock.Linux.Session as VSession
use virtsock.Stress.OnLinux.{VmSock, vsock, hvsock}

-- The request that ends is given by its place among those that are handled.
pub data Event : Type 0 where
  accepts : Event
  finishes : ℕ → Event

-- `connid`, the connections that are handled with their numbers, and whether `Accept` has failed,
-- which ends the program.
pub record State (C : Type 0) : Type 0 where
  pub connid : ℕ
  pub active : List (ℕ × C)
  pub fatal : Bool

abbrev pub begin : {C : Type 0} → State C
begin = record { connid = 0; active = []; fatal = false }

abbrev pub kept : {A : Type 0} → A → Option (A × List A) → Option (A × List A)
kept x none = none
kept x (some (y, ys)) = some (y, x ∷ ys)

abbrev pub take_out : {A : Type 0} → ℕ → List A → Option (A × List A)
take_out i [] = none
take_out zero (x ∷ xs) = some (x, xs)
take_out (suc i) (x ∷ xs) = kept x (take_out i xs)

abbrev pub accepted : {C E : Type 0} → Result E C → State C → State C
accepted (err e) s = record s { fatal = true }
accepted (ok c) s = record s { connid = s.connid + 1; active = (s.connid, c) ∷ s.active }

module _ {C E : Type 0} (k : Kernel) (o : Methods k C E) (accept : Run (Result E C)) where
  abbrev pub finish : State C → Option ((ℕ × C) × List (ℕ × C)) → Run (State C)
  finish s none = return s
  finish s (some (c, others)) = do o.close false c.1; return (record s { active = others })

  abbrev pub event : Event → State C → Run (State C)
  event accepts s = do q ← accept; return (accepted q s)
  event (finishes i) s = finish s (take_out i s.active)

  -- Nothing happens any more when the program has ended.
  abbrev pub if_running : Bool → Event → State C → Run (State C)
  if_running true e s = return s
  if_running false e s = event e s

  unfoldable pub events : List Event → State C → Run (State C)
  events [] s = return s
  events (e ∷ es) s = do t ← if_running s.fatal e s; events es t

-- What `Server` comes to: `Listen` fails, which ends the program, or a listener with its requests.
pub data Served : Type 0 where
  not_listening_vsock : V.Error → Served
  not_listening_hvsock : Hv.Error → Served
  on_vsock : V.Listener → State V.Conn → Served
  on_hvsock : Hv.Listener → State Hv.Conn → Served

module _ (k : Kernel) (es : List Event) where
  abbrev pub after_vsock : Result V.Error V.Listener → Run Served
  after_vsock (err e) = return (not_listening_vsock e)
  after_vsock (ok l) = do
    s ← events k (VSession.methods k) (V.accept k l) es begin
    return (on_vsock l s)

  abbrev pub after_hvsock : Result Hv.Error Hv.Listener → Run Served
  after_hvsock (err e) = return (not_listening_hvsock e)
  after_hvsock (ok l) = do
    s ← events k (HvSession.methods k) (Hv.accept k l) es begin
    return (on_hvsock l s)

  unfoldable pub vsock_server : Vsock.Addr → Run Served
  vsock_server a = do q ← V.listen k a.cid a.port; after_vsock q

  unfoldable pub hvsock_server : Addr.Addr → Run Served
  hvsock_server a = do q ← Hv.listen k a; after_hvsock q

  -- `Server`; the flag is `useHVSock`.
  unfoldable pub server : Bool → VmSock → Run Served
  server use_hvsock (vsock a) = vsock_server a
  server use_hvsock (hvsock a) =
      if not use_hvsock then vsock_server a.v_addr else hvsock_server a.hv_addr
