-- ===== src/Vsudd/Proxy/Closing.antt =====
-- The order in which `handleOneIn` closes what it holds.
use virtsock.Common.{Bool, Option, none, some, List, [], ◌∷◌, ◌≡◌, ◌⊎◌}
use virtsock.Vsudd.Proxy.{
  Event, copied_to_docker, docker_closed_write, conn_closed_read, docker_closed, conn_closed,
  copied_to_conn, docker_closed_read, conn_closed_write, Main, at_dial, at_copy,
  at_docker_close_write, at_conn_close_read, at_receive, at_docker_close, at_conn_close, returned,
  Copier, not_started, at_copy_out, at_docker_close_read, at_conn_close_write, at_send, done, State,
  main_act, copier_act,
}

-- The events of either thread, in a log.
abbrev pub of_main : List Event → List Event
of_main [] = []
of_main (copied_to_conn ∷ log) = of_main log
of_main (docker_closed_read ∷ log) = of_main log
of_main (conn_closed_write ∷ log) = of_main log
of_main (e ∷ log) = e ∷ of_main log

abbrev pub of_copier : List Event → List Event
of_copier [] = []
of_copier (copied_to_conn ∷ log) = copied_to_conn ∷ of_copier log
of_copier (docker_closed_read ∷ log) = docker_closed_read ∷ of_copier log
of_copier (conn_closed_write ∷ log) = conn_closed_write ∷ of_copier log
of_copier (_ ∷ log) = of_copier log

-- What either has done when it is where it is.
abbrev pub main_done : Main → List Event
main_done at_copy = []
main_done at_docker_close_write = copied_to_docker ∷ []
main_done at_conn_close_read = docker_closed_write ∷ copied_to_docker ∷ []
main_done _ = conn_closed_read ∷ docker_closed_write ∷ copied_to_docker ∷ []

abbrev pub copier_done : Copier → List Event
copier_done not_started = []
copier_done at_copy_out = []
copier_done at_docker_close_read = copied_to_conn ∷ []
copier_done at_conn_close_write = docker_closed_read ∷ copied_to_conn ∷ []
copier_done _ = conn_closed_write ∷ docker_closed_read ∷ copied_to_conn ∷ []

-- Both directions are copied and half closed, each in its order.
abbrev pub AreCopied : List Event → Type 0
AreCopied log = (of_main log ≡ main_done at_receive) × (of_copier log ≡ copier_done at_send)

abbrev pub IsRunning : Copier → Type 0
IsRunning not_started = ⊥
IsRunning done = ⊥
IsRunning _ = Unit

abbrev pub WhileCopying : Main → Copier → List Event → Type 0
WhileCopying m c log = IsRunning c × (of_main log ≡ main_done m) × (of_copier log ≡ copier_done c)

abbrev pub IsClosing : Copier → List Event → Type 0
IsClosing not_started log = log ≡ []
IsClosing done log = (earlier : List Event) × (log ≡ docker_closed ∷ earlier) × AreCopied earlier
IsClosing _ log = ⊥

-- How the log ends: nothing but a close if the socket could not be dialled; otherwise two closes
-- after all else.
abbrev pub IsClosed : Copier → List Event → Type 0
IsClosed not_started log = log ≡ conn_closed ∷ []
IsClosed done log =
    (earlier : List Event) × (log ≡ conn_closed ∷ docker_closed ∷ earlier) × AreCopied earlier
IsClosed _ log = ⊥

abbrev pub Flow : Main → Copier → List Event → Type 0
Flow at_dial not_started log = log ≡ []
Flow at_dial _ log = ⊥
Flow at_docker_close done log = AreCopied log
Flow at_docker_close _ log = ⊥
Flow at_conn_close c log = IsClosing c log
Flow returned c log = IsClosed c log
Flow m c log = WhileCopying m c log

abbrev pub Holds : State → Type 0
Holds s = Flow s.main s.copier s.log

abbrev pub AfterHolds : Option State → Type 0
AfterHolds none = Unit
AfterHolds (some t) = Holds t

abbrev pub IsSome : Option State → Type 0
IsSome none = ⊥
IsSome (some t) = Unit

-- It has returned with everything closed, or one of its two threads can act.
abbrev pub Ends : Bool → Main → State → Type 0
Ends dialled returned t = IsClosed t.copier t.log
Ends dialled _ t = IsSome (main_act dialled t) ⊎ IsSome (copier_act t)
