-- ===== src/Vsudd/Proxy.antt =====
-- `handleOneIn` of cmd/vsudd/main.go: two threads that copy between a connection and a Unix domain
-- socket ("docker"), each in one direction. Errors of the calls are logged only, so the calls are
-- events; a copy is one event, at its end.
pub mod Actions
pub mod Closing
use virtsock.Common.{Bool, true, false, Option, none, some, List, [], ◌∷◌, ◌≡◌, if◌then◌else◌}

pub data Event : Type 0 where
  copied_to_docker docker_closed_write conn_closed_read docker_closed conn_closed : Event
  copied_to_conn docker_closed_read conn_closed_write : Event

-- Where `handleOneIn` is, and where the goroutine that it starts is.
pub data Main : Type 0 where
  at_dial at_copy at_docker_close_write at_conn_close_read at_receive : Main
  at_docker_close at_conn_close returned : Main

pub data Copier : Type 0 where
  not_started at_copy_out at_docker_close_read at_conn_close_write at_send done : Copier

-- The latest event first.
pub record State : Type 0 where
  pub main : Main
  pub copier : Copier
  pub log : List Event

-- The unbuffered channel: a receive that goes on with the send, or waits.
abbrev pub receive : Copier → State → Option State
receive at_send s = some (record s { main = at_docker_close; copier = done })
receive _ s = none

-- One action of `handleOneIn`, with the deferred calls at its end; the flag is whether `DialUnix`
-- succeeds.
unfoldable pub main_act : Bool → State → Option State
main_act dialled s = elim s.main [
  | at_dial ↦ some (
      if dialled
      then record s { main = at_copy; copier = at_copy_out }
      else record s { main = at_conn_close })
  | at_copy ↦ some (record s { main = at_docker_close_write; log = copied_to_docker ∷ s.log })
  | at_docker_close_write ↦
      some (record s { main = at_conn_close_read; log = docker_closed_write ∷ s.log })
  | at_conn_close_read ↦ some (record s { main = at_receive; log = conn_closed_read ∷ s.log })
  | at_receive ↦ receive s.copier s
  | at_docker_close ↦ some (record s { main = at_conn_close; log = docker_closed ∷ s.log })
  | at_conn_close ↦ some (record s { main = returned; log = conn_closed ∷ s.log })
  | returned ↦ none
]

-- One action of the goroutine.
unfoldable pub copier_act : State → Option State
copier_act s = elim s.copier [
  | not_started ↦ none
  | at_copy_out ↦ some (record s { copier = at_docker_close_read; log = copied_to_conn ∷ s.log })
  | at_docker_close_read ↦
      some (record s { copier = at_conn_close_write; log = docker_closed_read ∷ s.log })
  | at_conn_close_write ↦ some (record s { copier = at_send; log = conn_closed_write ∷ s.log })
  | at_send ↦ none
  | done ↦ none
]

pub data Step (s t : State) : Type 0 where
  by_main : (dialled : Bool) → main_act dialled s ≡ some t → Step s t
  by_copier : copier_act s ≡ some t → Step s t

pub data Reach (s : State) : State → Type 0 where
  here : Reach s s
  next : {t u : State} → Reach s t → Step t u → Reach s u

-- A call of `handleOneIn`.
abbrev pub start : State
start = record { main = at_dial; copier = not_started; log = [] }
