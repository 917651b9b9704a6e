-- ===== src/Tests/Ports.antt =====
-- The port forwarding of vsudd, at concrete inputs.
use virtsock.Common.{
  ℕ, none, some, Option, List, ◌≡◌, refl, true, false, [], ◌∷◌, ◌++◌, ok, codes, arith,
}
use virtsock.Fmt.{hex_08}
use virtsock.Strings.{parse_uint}
use virtsock.Hvsock.Guid.Port.{suffix, of_port}
use virtsock.Hvsock.Addr.{guid_zero}
use virtsock.Vsock.{cid_any}
use virtsock.Vsudd.Network.{Target, hvsock, vsock}
use virtsock.Vsudd.Syslog.{target}
use virtsock.Vsudd.Forwards.{Forward, listener}
use virtsock.Vsudd.Forwards.Laws.{listener-agrees}
use virtsock.Vsudd.Start
use virtsock.Vsudd.Start.{died, failed_to_bind}
use virtsock.Vsudd.Accept
use virtsock.Vsudd.Accept.{at_top, accepting, accepted}
use virtsock.Vsudd.Proxy.{
  State, Reach, here, next, start, returned, done, at_receive, at_send, conn_closed, docker_closed,
  conn_closed_read, docker_closed_write, copied_to_docker, copied_to_conn, docker_closed_read,
  conn_closed_write,
}

port_is : parse_uint (codes "1024") ≡ ok 1024
unfolding parse_uint
port_is = refl

listener-agrees_example :
    (listener false (record { vsock_port = hex_08 1024 ++ suffix; net = codes "unix"; usock = [] })
      ≡ ok (vsock cid_any 1024, true))
    × (listener false (record { vsock_port = codes "1024"; net = codes "unix"; usock = [] })
        ≡ ok (vsock cid_any 1024, false))
    × (listener true (record { vsock_port = hex_08 1024 ++ suffix; net = codes "unix"; usock = [] })
        ≡ ok (hvsock guid_zero (of_port 1024), true))
    × (target false (hex_08 1024 ++ suffix) ≡ target false (codes "1024"))
    × (target true (hex_08 1024 ++ suffix) ≡ ok (hvsock guid_zero (of_port 1024)))
listener-agrees_example = listener-agrees 1024 (codes "1024") [] (omega arith) port_is

-- The goroutine ends its copy first.
abbrev both_copied : State
both_copied = record {
  main = at_receive;
  copier = at_send;
  log =
      conn_closed_read ∷ docker_closed_write ∷ conn_closed_write ∷ docker_closed_read
      ∷ copied_to_conn ∷ copied_to_docker ∷ [];
}

abbrev both_closed : State
both_closed = record {
  main = returned;
  copier = done;
  log = conn_closed ∷ docker_closed ∷ both_copied.log;
}

-- Two forwards have both counted before the first takes its connection.
abbrev both_counted : Accept.State
both_counted = record {
  shared = record { connid = 2; handled = 2 ∷ [] };
  loops = at_top ∷ accepting ∷ [];
}

both_counted-Reach : Accept.Reach (Accept.start 2) both_counted
unfolding Accept.act
both_counted-Reach =
    Accept.next
      (Accept.next
        (Accept.next
          (Accept.next Accept.here (
            Accept.step [] (at_top ∷ []) at_top accepting true (record { connid = 1; handled = [] })
              refl refl refl))
          (Accept.step (accepting ∷ []) [] at_top accepting true
            (record { connid = 2; handled = [] }) refl refl refl))
        (Accept.step [] (accepting ∷ []) accepting accepted true
          (record { connid = 2; handled = [] }) refl refl refl))
      (Accept.step [] (accepting ∷ []) accepted at_top true both_counted.shared refl refl refl)

-- The second forward then hands its connection over under the same number.
same_number :
    Accept.Reach (Accept.start 2) (record {
      shared = record { connid = 2; handled = 2 ∷ 2 ∷ [] };
      loops = at_top ∷ at_top ∷ [];
    })
unfolding Accept.act
same_number =
    Accept.next
      (Accept.next both_counted-Reach
        (Accept.step (at_top ∷ []) [] accepting accepted true both_counted.shared refl refl refl))
      (Accept.step (at_top ∷ []) [] accepted at_top true
        (record { connid = 2; handled = 2 ∷ 2 ∷ [] }) refl refl refl)

abbrev first_counted : Accept.State
first_counted = record { shared = record { connid = 1; handled = [] }; loops = accepting ∷ [] }

first_counted-Reach : Accept.Reach (Accept.start 1) first_counted
unfolding Accept.act
first_counted-Reach =
    Accept.next Accept.here
      (Accept.step [] [] at_top accepting true first_counted.shared refl refl refl)

-- Of two forwards to the same port, only the first can be bound.
abbrev taken_once : List Target → Target → Option ℕ
taken_once [] t = none
taken_once ts t = some 98

abbrev same_port : List Forward
same_port =
    record { vsock_port = codes "1024"; net = codes "unix"; usock = codes "/run/a" }
    ∷ record { vsock_port = codes "1024"; net = codes "unix"; usock = codes "/run/b" }
    ∷ []

second_dies :
    Start.start false taken_once same_port
    ≡ died
        (failed_to_bind (vsock cid_any 1024) 98)
        (record { listeners = vsock cid_any 1024 ∷ []; use_hvsock = false })
unfolding Start.start listener parse_uint
second_dies = refl
