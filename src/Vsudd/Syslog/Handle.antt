-- ===== src/Vsudd/Syslog/Handle.antt =====
-- `handleSyslogForward` of cmd/vsudd/vsyslog.go: its set-up, and its loop over the datagrams that it
-- reads. What the operating system answers is a parameter.
pub mod Delivery
use virtsock.Common.{
  ℕ, Bool, true, false, Option, none, some, List, [], ◌∷◌, Result, ok, err, Bytes, Text, take,
  if◌then◌else◌,
}
use virtsock.Strings.{split_n}
use virtsock.Vsudd.Network.{Network}
use virtsock.Vsudd.Syslog.{State, Fatal, Outcome, died, forwarded, too_many_retries, forward}

-- The fatal errors of the set-up.
pub data SetupError : Type 0 where
  no_console : SetupError
  failed_to_parse : Text → SetupError
  cannot_listen : Text → SetupError

abbrev pub two_parts : Text → List Text → Result SetupError (Text × Text)
two_parts cfg (vsock ∷ usock ∷ []) = ok (vsock, usock)
two_parts cfg _ = err (failed_to_parse cfg)

abbrev pub listening : Bool → Result SetupError (Text × Text) → Result SetupError (Text × Text)
listening listens (err e) = err e
listening listens (ok (vsock, usock)) =
    if listens then ok (vsock, usock) else err (cannot_listen usock)

-- The port string and the path of the socket, if the console opens and the socket listens. That an
-- old socket cannot be removed is only logged.
unfoldable pub set_up : Bool → Bool → Text → Result SetupError (Text × Text)
unfolding split_n
set_up console listens cfg =
    if console then listening listens (two_parts cfg (split_n 2 cfg b':')) else err no_console

-- `var buf [4096]byte`: a read gives no more of a datagram.
abbrev pub buf_size : ℕ
buf_size = 4096

pub data Ended : Type 0 where
  reading : State → Ended
  failed_to_read : State → Ended
  fatal : Fatal → State → Ended

abbrev pub after_forward : (State → Ended) → Outcome → Ended
after_forward next (died e t) = fatal e t
after_forward next (forwarded t) = next t
after_forward next (too_many_retries t) = next t

-- The loop over what the reads answer: a datagram, or an error.
pub handle_loop : Network → Text → List (Option Bytes) → State → Ended
handle_loop net portstr [] s = reading s
handle_loop net portstr (none ∷ reads) s = failed_to_read s
handle_loop net portstr (some datagram ∷ reads) s =
    after_forward (handle_loop net portstr reads) (forward net (take buf_size datagram) portstr s)
