-- ===== src/Tests/Datagrams.antt =====
-- The forwarding of syslog datagrams over a network that takes every byte.
use virtsock.Common.{◌≡◌, refl, true, false, none, some, ◌++◌, [], codes, length, Bytes}
use virtsock.Strings.{parse_uint, decimal, decimal_loop}
use virtsock.Vsudd.Network.{Network, delivered, open_conns, copy_bytes}
use virtsock.Vsudd.Syslog.{
  State, round, target, send_new, rfc5425_write, send, sent, forward, Round,
}
use virtsock.Vsudd.Syslog.Frames.{read_frame, rfc5425_write-read_frame}
use virtsock.Vsudd.Syslog.Forward.{IsTidy, OutcomeTidy, forward-OutcomeTidy}

abbrev quiet : Network
quiet = record {
  supported = false;
  on_dial = λ log t. some (length log);
  on_write = λ log c bs. (length bs, false);
}

-- A connection was lost after "one".
abbrev lost : State
lost = record {
  current_conn = none;
  already_connected_once = true;
  last_message = some (codes "one");
  log = [];
}

lost-IsTidy : IsTidy lost
unfolding open_conns
lost-IsTidy = refl

forward-OutcomeTidy_example :
    OutcomeTidy (codes "two") (forward quiet (codes "two") (codes "514") lost)
forward-OutcomeTidy_example = forward-OutcomeTidy quiet (codes "two") (codes "514") lost lost-IsTidy

written : (rfc5425_write quiet 3 (codes "a b") []).0 ≡ false
unfolding rfc5425_write copy_bytes decimal decimal_loop
written = refl

rfc5425_write-read_frame_example :
    (x : Bytes) × (delivered 3 (rfc5425_write quiet 3 (codes "a b") []).1 ≡ delivered 3 [] ++ x)
    × ((rest : Bytes) → read_frame (x ++ rest) 0 ≡ some (codes "a b", rest))
rfc5425_write-read_frame_example = rfc5425_write-read_frame quiet 3 (codes "a b") [] written

abbrev state_of : Round → State
state_of (sent t) = t
state_of _ = lost

-- What `lost` becomes when "two" is sent.
abbrev regained : State
unfolding round
regained = state_of (round quiet (codes "two") (codes "514") lost)

regained-sent : round quiet (codes "two") (codes "514") lost ≡ sent regained
unfolding round target parse_uint send_new rfc5425_write copy_bytes decimal decimal_loop send
regained-sent = refl
