-- ===== src/Tests/Closings.antt =====
-- The Windows connections of pkg/hvsock: one that is closed under a read, and a failed accept.
use virtsock.Common.{
  none, ok, err, ◌==◌, if◌then◌else◌, ◌-◌, ◌^◌, ◌<◌, ◌≡◌, refl, Bool, true, false, some, Result,
  ◌∷◌, [], ◌⊎◌,
}
use virtsock.System.{History, SockAddr, other_family}
use virtsock.Hvsock.Guid.{template}
use virtsock.Hvsock.Addr.{guid_parent}
use virtsock.Hvsock.Windows.Life.{
  State, Step, Reach, here, next, operate, mark, about_to_cancel, waiting, cancel_all, closed,
  issued, in_flight, not_come, ready, nothing, prepare, pend, act, fresh, idle,
}
use virtsock.Hvsock.Windows.Ports
use virtsock.Hvsock.Windows.Ports.{new_conn, new_conns}
use virtsock.Hvsock.Windows.Ports.Single.{Outcome, new_conns-IsShared}
use virtsock.Hvsock.Windows.Life.Cancelled.{AfterClose, Reach-cancels}
use virtsock.Hvsock.Windows.Life.Ends.{steps_left, Reach-closes}
use virtsock.Hvsock.Windows.Sockets.{accept, Error, Conn, Listener}
use virtsock.Hvsock.Windows.Calls.{Libraries, kernel}
use virtsock.Hvsock.Windows.Calls.Failures.{AfterFailure, error_of, accept-AfterFailure}
use virtsock.Tests.Kernels.{moody}

-- A read has been issued when `close` sets its flag.
abbrev in_ready : State
in_ready = record {
  closer = not_come;
  busy = false;
  operations = record { pc = ready; packet = nothing } ∷ [];
}

abbrev under_read : State
under_read = record {
  closer = not_come;
  busy = false;
  operations = record { pc = issued; packet = in_flight false } ∷ [];
}

abbrev marked : State
marked = record under_read { closer = about_to_cancel }

under_read-Reach : Reach (fresh 1) under_read
unfolding act
under_read-Reach =
    let first : Step (fresh 1) in_ready false =
      operate [] [] (record { pc = idle; packet = nothing })
        (record { pc = ready; packet = nothing }) prepare false refl refl refl in
    let second : Step in_ready under_read false =
      operate [] [] (record { pc = ready; packet = nothing })
        (record { pc = issued; packet = in_flight false }) pend false refl refl refl in
    next (next here first) second

marked-Reach : Reach (fresh 1) marked
marked-Reach = next under_read-Reach (mark refl refl)

-- `close` then cancels the read and waits.
abbrev all_cancelled : State
all_cancelled = record {
  closer = waiting;
  busy = false;
  operations = record { pc = issued; packet = in_flight true } ∷ [];
}

all_cancelled-Reach : Reach (fresh 1) all_cancelled
all_cancelled-Reach = next marked-Reach (cancel_all refl refl)

Reach-cancels_example : AfterClose all_cancelled.closer all_cancelled.operations
Reach-cancels_example = Reach-cancels 1 {s = all_cancelled} all_cancelled-Reach

Reach-closes_example :
    ((marked.closer ≡ closed) ⊎ ((t : State) × Step marked t false))
    × ((t : State) (b : Bool) → Step marked t b → steps_left t < steps_left marked)
Reach-closes_example = Reach-closes 1 {s = marked} marked-Reach refl

-- Winsock on a system of 64 bits, whose `accept` is interrupted.
abbrev no_peer : SockAddr
no_peer = other_family

abbrev interrupted : Libraries
interrupted = record {
  connect = λ h fd sa. record { r1 = 0; e1 = 0 };
  bind = λ h fd sa. record { r1 = 0; e1 = 0 };
  accept = λ h fd. (record { r1 = 2 ^ 64 - 1; e1 = 10004 }, no_peer);
  associate = λ h fd. record { r1 = 5; e1 = 0 };
  set_modes = λ h fd. record { r1 = 1; e1 = 0 };
  rest = moody;
}

abbrev on_four : Listener
on_four = record { fd = 4; local = record { vmid = guid_parent; service_id = template } }

accept-AfterFailure_example :
    (q : Result Error Conn) × (g : History) × (accept (kernel 22 interrupted) on_four []
      ≡ some (q, g))
    × AfterFailure (kernel 22 interrupted) on_four.fd no_peer true (error_of 22 10004) [] q g
accept-AfterFailure_example = accept-AfterFailure true 22 interrupted on_four [] 10004 no_peer refl

-- A system with one port to give, which does not tie handle 5.
abbrev one_port : Ports.Calls
one_port = record {
  on_create = λ s. ok 60;
  on_tie = λ s fd port. if fd == 5 then some 87 else none;
  on_set_modes = λ s fd. none;
}

new_conns-IsShared_example :
    Outcome one_port (new_conns one_port (4 ∷ 5 ∷ 6 ∷ []) ([], Ports.fresh))
new_conns-IsShared_example = new_conns-IsShared one_port (4 ∷ 5 ∷ 6 ∷ [])

new_conns_is :
    new_conns one_port (4 ∷ 5 ∷ 6 ∷ []) ([], Ports.fresh)
    ≡ some (
      ok 6 ∷ err 87 ∷ ok 4 ∷ [],
      record { once = true; port = 60; processors = 60 ∷ []; ties = (6, 60) ∷ (4, 60) ∷ [] },
    )
unfolding new_conns new_conn
new_conns_is = refl
