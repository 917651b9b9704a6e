-- ===== src/Hvsock/Windows/Completion.antt =====
-- The completion port of pkg/hvsock/hvsock_windows.go: `ioCompletionProcessor` hands what the port
-- gives it to the operations that wait in `asyncIo`, each over its own unbuffered channel. A call of
-- `cancelIoEx` only makes the system complete an operation, which it may do at any time here.
pub mod Sound
pub mod Delivery
use virtsock.Common.{
  ℕ, Bool, true, false, Option, none, some, List, [], ◌∷◌, ◌++◌, ◌≡◌, if◌then◌else◌, zero, suc,
}
use virtsock.Hvsock.Windows.Io.{IoError, io_pending, Answer, completed, late, woken}

-- Where the caller of an operation is: before the system call, in `asyncIo` behind a call that is
-- pending, at its `select`, behind the deadline and before `cancelIoEx`, at the receive behind that,
-- or back, with what it returns.
pub data Caller : Type 0 where
  about_to_issue pending selecting expired draining : Caller
  back : Answer → Caller

-- Where its packet is: there is none, the system works on it, in the port, with the processor, or
-- handed over.
pub data Packet : Type 0 where
  no_packet in_progress : Packet
  in_port with_processor : Answer → Packet
  handed_over : Answer → Packet

-- An `ioOperation` with its caller; `c.ch` is the one way between the two.
pub record Operation : Type 0 where
  pub caller : Caller
  pub packet : Packet

-- What an operation can meet: an answer to the system call, a completion, the processor's call of
-- `getQueuedCompletionStatus`, its send on `op.ch`, with whether the connection is then closing, the
-- caller's way to its `select`, the deadline, and the call of `cancelIoEx` behind it.
pub data Action : Type 0 where
  issue complete : Answer → Action
  send : Bool → Action
  dequeue arrive expire cancel : Action

-- What `asyncIo` makes of the answer; `skips` is whether the port is set to get no packet for a call
-- that succeeds at once, which `newHVsockConn` asks for. A call that fails at once gets none.
abbrev pub issued : Bool → Answer → Operation
issued skips (n, some io_pending) = record { caller = pending; packet = in_progress }
issued skips (n, none) = record {
  caller = back (n, none);
  packet = if skips then no_packet else in_port (n, none);
}
issued skips (n, some e) = record { caller = back (n, some e); packet = no_packet }

-- One action on an operation, with whether the processor is at its `op.ch <-`; `none` means that it
-- cannot happen. What is received is translated as `asyncIo` does it.
unfoldable pub act : Bool → Action → Bool → Caller → Packet → Option (Bool × Operation)
act skips (issue a) busy about_to_issue no_packet = some (busy, issued skips a)
act skips (complete a) busy c in_progress = some (busy, record { caller = c; packet = in_port a })
act skips dequeue false c (in_port a) =
    some (true, record { caller = c; packet = with_processor a })
act skips (send closing) busy selecting (with_processor a) =
    some (false, record { caller = back (woken closing (completed a)); packet = handed_over a })
act skips (send closing) busy draining (with_processor a) =
    some (false, record { caller = back (woken closing (late a)); packet = handed_over a })
act skips arrive busy pending p = some (busy, record { caller = selecting; packet = p })
act skips expire busy selecting p = some (busy, record { caller = expired; packet = p })
act skips cancel busy expired p = some (busy, record { caller = draining; packet = p })
act skips _ busy c p = none

pub record State : Type 0 where
  pub busy : Bool
  pub operations : List Operation

pub data Step (skips : Bool) (s t : State) : Type 0 where
  step :
      (pre post : List Operation) (o o' : Operation) (a : Action) (busy' : Bool)
      → s.operations ≡ pre ++ o ∷ post
      → act skips a s.busy o.caller o.packet ≡ some (busy', o')
      → t ≡ record { busy = busy'; operations = pre ++ o' ∷ post }
      → Step skips s t

pub data Reach (skips : Bool) (s : State) : State → Type 0 where
  here : Reach skips s s
  next : {t u : State} → Reach skips s t → Step skips t u → Reach skips s u

-- `n` operations that `prepareIo` has made, over the lifetime of the port.
abbrev pub prepared : ℕ → List Operation
prepared zero = []
prepared (suc n) = record { caller = about_to_issue; packet = no_packet } ∷ prepared n
