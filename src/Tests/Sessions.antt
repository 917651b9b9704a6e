-- ===== src/Tests/Sessions.antt =====
-- The sessions of syslog datagrams, at concrete inputs.
use virtsock.Common.{ℕ, ◌≡◌, refl, false, none, some, ok, [], ◌∷◌, codes, length, Bytes, List}
use virtsock.Strings.{parse_uint, decimal, decimal_loop}
use virtsock.Vsock.{cid_host}
use virtsock.Vsudd.Network.{Network, vsock, open_conns, delivered, copy_bytes}
use virtsock.Vsudd.Syslog.{
  State, forward, forward_loop, round, target, send_new, rfc5425_write, send, forwarded, Outcome,
}
use virtsock.Vsudd.Syslog.Sessions.{Represents, Push, forward-Push, read_frames}
use virtsock.Vsudd.Syslog.Forward.{IsTidy}
use virtsock.Vsudd.Syslog.Handle.{handle_loop, reading}
use virtsock.Vsudd.Syslog.Handle.Delivery.{IsReliable, handle_loop-read_frames}

-- A network that takes every byte.
abbrev calm : Network
calm = record {
  supported = false;
  on_dial = λ log t. some (length log);
  on_write = λ log c bs. (length bs, false);
}

calm-IsReliable : IsReliable calm
calm-IsReliable = record { dials = λ log t. (length log, refl); writes = λ log c bs. refl }

abbrev idle : State
idle = record { current_conn = none; already_connected_once = false; last_message = none; log = [] }

idle-IsTidy : IsTidy idle
unfolding open_conns
idle-IsTidy = refl

abbrev state_after : Outcome → State
state_after (forwarded t) = t
state_after _ = idle

-- `idle` with "one" behind it.
abbrev one_sent : State
one_sent = state_after (forward calm (codes "one") (codes "514") idle)

one_sent-forwarded : forward calm (codes "one") (codes "514") idle ≡ forwarded one_sent
unfolding forward forward_loop round target parse_uint send_new rfc5425_write copy_bytes decimal
    decimal_loop send
one_sent-forwarded = refl

forward-Push_example :
    (ms : List Bytes) × Represents one_sent (some ms) × Push (codes "one") none none ms
forward-Push_example =
    forward-Push calm (codes "one") (codes "514") idle one_sent none refl one_sent-forwarded

port_514 : target false (codes "514") ≡ ok (vsock cid_host 514)
unfolding target parse_uint
port_514 = refl

handle_loop-read_frames_example :
    (t : State) × (c : ℕ) × (handle_loop calm
        (codes "514")
        (some (codes "one") ∷ some (codes "two") ∷ [])
        idle
      ≡ reading t)
    × (t.current_conn ≡ some c)
    × (read_frames 3 (delivered c t.log) ≡ some (codes "one" ∷ codes "two" ∷ []))
handle_loop-read_frames_example =
    handle_loop-read_frames calm calm-IsReliable (codes "514") (vsock cid_host 514) (codes "one")
      (codes "two" ∷ []) idle port_514 refl refl
