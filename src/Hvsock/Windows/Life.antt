-- ===== src/Hvsock/Windows/Life.antt =====
-- The life of a connection of pkg/hvsock/hvsock_windows.go with closing, deadlines and completions
-- together: `close` against any number of operations, and who cancels what the system is working on.
pub mod Sound
pub mod Cancelled
pub mod Ends
use virtsock.Common.{
  ℕ, ◌+◌, Bool, true, false, Option, none, some, List, [], ◌∷◌, ◌++◌, ◌≡◌, map, if◌then◌else◌, zero,
  suc,
}

-- Where an operation is: before `prepareIo`; about to make the system call; with the call pending,
-- about to look at `closing`; about to cancel itself because of it; at the `select`; about to cancel
-- itself because of its deadline; at the receive behind that; about to call `wg.Done`; back.
pub data Pc : Type 0 where
  idle ready issued cancelling selecting expired draining finishing returned : Pc

-- Where its packet is; while the system works on it, whether it has been asked to cancel it.
pub data Packet : Type 0 where
  nothing in_port with_processor handed_over : Packet
  in_flight : Bool → Packet

pub record Operation : Type 0 where
  pub pc : Pc
  pub packet : Packet

-- The thread whose `closing.swap` finds the flag unset: not yet come, about to cancel all operations,
-- at `wg.Wait`, or past `syscall.Close`.
pub data Closer : Type 0 where
  not_come about_to_cancel waiting closed : Closer

-- The flag `closing`.
abbrev pub is_closing : Closer → Bool
is_closing not_come = false
is_closing _ = true

-- `cancelIoEx`.
abbrev pub cancel : Packet → Packet
cancel (in_flight b) = in_flight true
cancel p = p

abbrev pub cancel_operation : Operation → Operation
cancel_operation o = record { pc = o.pc; packet = cancel o.packet }

-- What happens to an operation: `prepareIo`; the three ways on from there, which are a deadline that
-- has passed or a call that is over at once, and a call that is pending; the test of `closing`; its
-- own `cancelIoEx`; its deadline; a completion; the processor's receive and send; `wg.Done`.
pub data Action : Type 0 where
  prepare over_at_once pend look cancel_own expire complete dequeue send done : Action

-- Whether an action needs the other end of the connection: a completion that was not asked for.
abbrev pub needs_peer : Action → Packet → Bool
needs_peer complete (in_flight false) = true
needs_peer _ _ = false

-- One action, with `closing` and whether the processor is at its send; `none` means that it cannot
-- happen.
unfoldable pub act : Action → Bool → Bool → Pc → Packet → Option (Bool × Operation)
act prepare closing busy idle p =
    some (busy, record { pc = if closing then returned else ready; packet = p })
act over_at_once closing busy ready p = some (busy, record { pc = finishing; packet = p })
act pend closing busy ready p = some (busy, record { pc = issued; packet = in_flight false })
act look closing busy issued p =
    some (busy, record { pc = if closing then cancelling else selecting; packet = p })
act cancel_own closing busy cancelling p = some (busy, record { pc = selecting; packet = cancel p })
act cancel_own closing busy expired p = some (busy, record { pc = draining; packet = cancel p })
act expire closing busy selecting p = some (busy, record { pc = expired; packet = p })
act complete closing busy pc (in_flight b) = some (busy, record { pc = pc; packet = in_port })
act dequeue closing false pc in_port = some (true, record { pc = pc; packet = with_processor })
act send closing busy selecting with_processor =
    some (false, record { pc = finishing; packet = handed_over })
act send closing busy draining with_processor =
    some (false, record { pc = finishing; packet = handed_over })
act done closing busy finishing p = some (busy, record { pc = returned; packet = p })
act _ closing busy pc p = none

-- What the wait group counts.
abbrev pub counted : Pc → ℕ
counted idle = 0
counted returned = 0
counted _ = 1

abbrev pub wg : List Operation → ℕ
wg [] = 0
wg (o ∷ os) = counted o.pc + wg os

pub record State : Type 0 where
  pub closer : Closer
  pub busy : Bool
  pub operations : List Operation

-- The flag of a step says whether it needs the peer.
pub data Step (s t : State) : Bool → Type 0 where
  operate :
      (pre post : List Operation) (o o' : Operation) (a : Action) (busy' : Bool)
      → s.operations ≡ pre ++ o ∷ post
      → act a (is_closing s.closer) s.busy o.pc o.packet ≡ some (busy', o')
      → t ≡ record s { busy = busy'; operations = pre ++ o' ∷ post }
      → Step s t (needs_peer a o.packet)
  mark : s.closer ≡ not_come → t ≡ record s { closer = about_to_cancel } → Step s t false
  cancel_all :
      s.closer ≡ about_to_cancel
      → t ≡ record s { closer = waiting; operations = map cancel_operation s.operations }
      → Step s t false
  free :
      s.closer ≡ waiting → wg s.operations ≡ 0 → t ≡ record s { closer = closed } → Step s t false

pub data Reach (s : State) : State → Type 0 where
  here : Reach s s
  next : {t u : State} {b : Bool} → Reach s t → Step t u b → Reach s u

-- `n` operations, before any of them.
abbrev pub fresh_operations : ℕ → List Operation
fresh_operations zero = []
fresh_operations (suc n) = record { pc = idle; packet = nothing } ∷ fresh_operations n

abbrev pub fresh : ℕ → State
fresh n = record { closer = not_come; busy = false; operations = fresh_operations n }
