-- ===== src/Vsudd/Proxy/Actions.antt =====
-- How long `handleOneIn` runs, in actions of its two threads.
use virtsock.Common.{ℕ, ◌+◌, ◌≤◌, ◌<◌, arith, Bool, true, false, Option, none, some, List, subst}
use virtsock.Vsudd.Proxy.{
  Event, Main, at_dial, at_copy, at_docker_close_write, at_conn_close_read, at_receive,
  at_docker_close, at_conn_close, returned, Copier, at_copy_out, at_docker_close_read,
  at_conn_close_write, at_send, State, main_act, copier_act, by_main, by_copier, Reach, here, next,
  start,
}

abbrev pub state : Main → Copier → List Event → State
state m c log = record { main = m; copier = c; log = log }

-- How many actions a state leaves, at most.
abbrev main_todo : Main → ℕ
main_todo at_dial = 10
main_todo at_copy = 6
main_todo at_docker_close_write = 5
main_todo at_conn_close_read = 4
main_todo at_receive = 3
main_todo at_docker_close = 2
main_todo at_conn_close = 1
main_todo returned = 0

abbrev copier_todo : Copier → ℕ
copier_todo at_copy_out = 3
copier_todo at_docker_close_read = 2
copier_todo at_conn_close_write = 1
copier_todo _ = 0

abbrev todo : State → ℕ
todo t = main_todo t.main + copier_todo t.copier

abbrev Below : ℕ → Option State → Type 0
Below n none = Unit
Below n (some t) = todo t < n

main_act-Below :
    (d : Bool) (m : Main) (c : Copier) (log : List Event)
    → Below (main_todo m + copier_todo c) (main_act d (state m c log))
unfolding main_act
main_act-Below true at_dial c log = omega arith
main_act-Below false at_dial c log = omega arith
main_act-Below d at_copy c log = omega arith
main_act-Below d at_docker_close_write c log = omega arith
main_act-Below d at_conn_close_read c log = omega arith
main_act-Below d at_receive at_send log = omega arith
main_act-Below d at_receive _ log = tt
main_act-Below d at_docker_close c log = omega arith
main_act-Below d at_conn_close c log = omega arith
main_act-Below d returned c log = tt

copier_act-Below :
    (m : Main) (c : Copier) (log : List Event)
    → Below (main_todo m + copier_todo c) (copier_act (state m c log))
unfolding copier_act
copier_act-Below m at_copy_out log = omega arith
copier_act-Below m at_docker_close_read log = omega arith
copier_act-Below m at_conn_close_write log = omega arith
copier_act-Below m _ log = tt

-- The number of actions of a run.
abbrev pub actions : {s t : State} → Reach s t → ℕ
actions here = 0
actions (next r st) = actions r + 1

pub actions-le : {t : State} (r : Reach start t) → actions r + todo t ≤ 10
actions-le here = omega arith
actions-le (next {t = s} r (by_main d e)) =
    let less = subst (Below (todo s)) e (main_act-Below d s.main s.copier s.log) in
    omega (arith, less, actions-le r)
actions-le (next {t = s} r (by_copier e)) =
    let less = subst (Below (todo s)) e (copier_act-Below s.main s.copier s.log) in
    omega (arith, less, actions-le r)
