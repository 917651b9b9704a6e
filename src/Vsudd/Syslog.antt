-- ===== src/Vsudd/Syslog.antt =====
-- cmd/vsudd/vsyslog.go: the forwarding of syslog datagrams. The package's variables are a record.
pub mod Frames
pub mod Forward
pub mod Sessions
pub mod Handle
use virtsock.Common.{
  ℕ, zero, suc, ◌+◌, Bool, true, false, not, Option, none, some, List, [], ◌∷◌, ◌++◌, Result, ok,
  err, Bytes, Text, length, ◌==◌, if◌then◌else◌, contains,
}
use virtsock.Fmt.{ScanError}
use virtsock.Strings.{NumError, parse_uint, decimal}
use virtsock.Hvsock.Guid.{Guid, from_string, port, PortError}
use virtsock.Hvsock.Addr.{guid_zero}
use virtsock.Vsock.{cid_host}
use virtsock.Vsudd.Network.{
  Network, Target, hvsock, vsock, Event, dialled, closed, closed_read, Log, copy_bytes,
}

-- `rfc5425Write`: the length and a space, then the message. The result says whether it failed.
unfoldable pub rfc5425_write : Network → ℕ → Bytes → Log → Bool × Log
rfc5425_write net c buf log =
    let header = copy_bytes net c (decimal (length buf) ++ (b' ' ∷ [])) log in
    let body = copy_bytes net c buf header.1 in if header.0 then header else body

pub record State : Type 0 where
  pub current_conn : Option ℕ
  pub already_connected_once : Bool
  pub last_message : Option Bytes
  pub log : Log

-- Where `forwardSyslogDatagram` dials, or the fatal error on a port string that says nothing.
pub data Fatal : Type 0 where
  bad_guid : ScanError → Fatal
  bad_port : PortError → Fatal
  bad_number : NumError → Fatal

abbrev pub port_target : Result PortError ℕ → Result Fatal Target
port_target (ok p) = ok (vsock cid_host p)
port_target (err e) = err (bad_port e)

abbrev pub guid_target : Bool → Guid × Option ScanError → Result Fatal Target
guid_target supported (g, some e) = err (bad_guid e)
guid_target true (g, none) = ok (hvsock guid_zero g)
guid_target false (g, none) = port_target (port g)

abbrev pub number_target : Result NumError ℕ → Result Fatal Target
number_target (ok p) = ok (vsock cid_host p)
number_target (err e) = err (bad_number e)

unfoldable pub target : Bool → Text → Result Fatal Target
target supported portstr =
    if contains portstr b'-'
    then guid_target supported (from_string portstr)
    else number_target (parse_uint portstr)

-- What one round of the loop ends with.
pub data Round : Type 0 where
  fatal : Fatal → State → Round
  continue : State → Round
  sent : State → Round

-- The second half of a round, on a connection that is current.
unfoldable pub send : Network → Bytes → ℕ → State → Round
send net buf c s =
    let (failed, log) = rfc5425_write net c buf s.log in
    if failed
    then continue (record s { current_conn = none; log = closed c ∷ log })
    else sent (record s { last_message = some buf; log = log })

-- A new connection: the last message is repeated before anything else.
abbrev pub replay : Network → ℕ → Option Bytes → Log → Bool × Log
replay net c none log = (false, log)
replay net c (some m) log = rfc5425_write net c m log

unfoldable pub send_new : Network → Bytes → ℕ → State → Round
send_new net buf c s =
    let (failed, log) = replay net c s.last_message (closed_read c ∷ s.log) in
    if failed
    then continue (record s { already_connected_once = true; log = closed c ∷ log })
    else send net buf c (record s {
      current_conn = some c;
      already_connected_once = true;
      last_message = none;
      log = log;
    })

abbrev pub dial_result : Network → Bytes → Target → Option ℕ → State → Round
dial_result net buf t none s = continue (record s { log = dialled t none ∷ s.log })
dial_result net buf t (some c) s =
    send_new net buf c (record s { log = dialled t (some c) ∷ s.log })

abbrev pub dial_target : Network → Bytes → Result Fatal Target → State → Round
dial_target net buf (err e) s = fatal e s
dial_target net buf (ok t) s = dial_result net buf t (net.on_dial s.log t) s

abbrev pub round_on : Network → Bytes → Text → Option ℕ → State → Round
round_on net buf portstr (some c) s = send net buf c s
round_on net buf portstr none s = dial_target net buf (target net.supported portstr) s

-- One round of the loop over `try`.
unfoldable pub round : Network → Bytes → Text → State → Round
round net buf portstr s = round_on net buf portstr s.current_conn s

pub data Outcome : Type 0 where
  died : Fatal → State → Outcome
  forwarded too_many_retries : State → Outcome

abbrev pub after_round : (State → Outcome) → Round → Outcome
after_round next (fatal e t) = died e t
after_round next (continue t) = next t
after_round next (sent t) = forwarded t

-- The loop, with the rounds left.
unfoldable pub forward_loop : ℕ → Network → Bytes → Text → State → Outcome
forward_loop zero net buf portstr s = too_many_retries (record s { last_message = none })
forward_loop (suc tries) net buf portstr s =
    after_round (forward_loop tries net buf portstr) (round net buf portstr s)

-- `forwardSyslogDatagram`.
unfoldable pub forward : Network → Bytes → Text → State → Outcome
forward net buf portstr s = forward_loop 2 net buf portstr s
