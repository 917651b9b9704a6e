-- ===== src/Hvsock/Windows/Io.antt =====
-- `asyncIo`, `Read` and `write` of a connection on Windows, over what the system calls answer and
-- what the connection's flags are when they are looked at. Bytes are counted only.
pub mod Contract
use virtsock.Common.{
  ℕ, zero, suc, Bool, true, false, Option, none, some, ◌==◌, ◌&&◌, not, if◌then◌else◌,
}

-- `ERROR_IO_PENDING`, `ERROR_OPERATION_ABORTED`, `ERROR_BROKEN_PIPE` and the other errors of the
-- system calls, and the errors that the package makes: `io.EOF`, `ErrTimeout`, closed.
pub data IoError : Type 0 where
  io_pending operation_aborted broken_pipe : IoError
  system : ℕ → IoError
  eof timeout already_closed : IoError

abbrev pub Answer : Type 0
Answer = ℕ × Option IoError

-- How the `select` goes on: by a completion, or by the deadline's channel, and then, after
-- `cancelIoEx`, a completion.
pub data Wakeup : Type 0 where
  completed late : Answer → Wakeup

-- What an operation meets: what `prepareIo` says, whether the deadline has passed, the answer of
-- `WSARecv` or `WSASend`, the wakeup, and whether `closing` is set after it.
pub record Course : Type 0 where
  pub refused : Bool
  pub timed_out : Bool
  pub issued : Answer
  pub wakeup : Wakeup
  pub closing : Bool

-- The error of a completion becomes another when the operation was aborted.
abbrev pub if_aborted : IoError → Option IoError → Option IoError
if_aborted e (some operation_aborted) = some e
if_aborted e r = r

abbrev pub woken : Bool → Wakeup → Answer
woken true (completed (n, e)) = (n, if_aborted already_closed e)
woken false (completed (n, e)) = (n, e)
woken closing (late (n, e)) = (n, if_aborted timeout e)

-- `asyncIo`.
unfoldable pub async_io : Answer → Wakeup → Bool → Answer
async_io (n, some io_pending) w closing = woken closing w
async_io (n, e) w closing = (n, e)

-- What follows `prepareIo` in `Read` and in `write`.
abbrev pub issue : Course → Answer
issue c =
    if c.refused
    then (0, some already_closed)
    else if c.timed_out
    then (0, some timeout)
    else async_io c.issued c.wakeup c.closing

-- The end of `Read`, on a buffer of `len` bytes.
abbrev pub with_eof : ℕ → Answer → Answer
with_eof len (n, none) = if (n == 0) && not (len == 0) then (0, some eof) else (n, none)
with_eof len (n, some broken_pipe) = (0, some eof)
with_eof len (n, some e) = (n, some e)

-- `Read`. `none` is the panic of `&buf[0]` on an empty buffer.
unfoldable pub read : ℕ → Course → Option Answer
read zero c = none
read (suc len) c = some (
    if c.refused
    then (0, some already_closed)
    else if c.timed_out
    then (0, some timeout)
    else with_eof (suc len) (async_io c.issued c.wakeup c.closing))

-- `write`.
unfoldable pub write : ℕ → Course → Answer
write zero c = (0, none)
write (suc len) c = issue c
