-- ===== src/Hvsock/Windows/Calls.antt =====
-- pkg/hvsock/zsyscall_windows.go: what the wrappers make of the two words that `syscall.Syscall`
-- gives them, the result of a function of the system and its last error. `syscall.EINVAL` is an
-- argument, since its number is package syscall's.
pub mod Failures
use virtsock.Common.{
  ℕ, ◌%◌, ◌^◌, Bool, not, Option, none, some, Result, ok, err, ◌==◌, if◌then◌else◌,
}
use virtsock.System.{Errno, SockAddr, How, History, Kernel}

-- `socketError`, the notification modes, and `errnoERROR_IO_PENDING`.
abbrev pub socket_error : ℕ
socket_error = 4294967295

abbrev pub skip_completion_port_on_success : ℕ
skip_completion_port_on_success = 1

abbrev pub skip_set_event_on_handle : ℕ
skip_set_event_on_handle = 2

abbrev pub error_io_pending : Errno
error_io_pending = 997

-- `r1` (or `r0`) and `e1`.
pub record Words : Type 0 where
  pub r1 : ℕ
  pub e1 : Errno

-- `errnoErr`.
unfoldable pub errno_err : Errno → Option Errno
errno_err e =
    if e == 0 then none else if e == error_io_pending then some error_io_pending else some e

-- The block that follows a test for failure in each wrapper.
abbrev pub error_if : Errno → Bool → Errno → Option Errno
error_if einval failed e1 =
    if failed then (if not (e1 == 0) then errno_err e1 else some einval) else none

module _ (einval : Errno) where
  unfoldable pub sys_connect : Words → Option Errno
  sys_connect w = error_if einval (w.r1 == socket_error) w.e1

  unfoldable pub sys_bind : Words → Option Errno
  sys_bind w = error_if einval (w.r1 == socket_error) w.e1

  unfoldable pub sys_accept : Words → ℕ × Option Errno
  sys_accept w = (w.r1, error_if einval (w.r1 == socket_error) w.e1)

  unfoldable pub cancel_io_ex : Words → Option Errno
  cancel_io_ex w = error_if einval (w.r1 == 0) w.e1

  unfoldable pub create_io_completion_port : Words → ℕ × Option Errno
  create_io_completion_port w = (w.r1, error_if einval (w.r1 == 0) w.e1)

  unfoldable pub get_queued_completion_status : Words → Option Errno
  get_queued_completion_status w = error_if einval (w.r1 == 0) w.e1

  unfoldable pub set_file_completion_notification_modes : Words → Option Errno
  set_file_completion_notification_modes w = error_if einval (w.r1 == 0) w.e1

-- `int32(r0)`, by its bits.
unfoldable pub time_begin_period : Words → ℕ
time_begin_period w = w.r1 % 2 ^ 32

-- The functions of the libraries that the wrappers call, and the calls of package syscall.
pub record Libraries : Type 0 where
  pub connect : History → ℕ → SockAddr → Words
  pub bind : History → ℕ → SockAddr → Words
  pub accept : History → ℕ → Words × SockAddr
  pub associate : History → ℕ → Words
  pub set_modes : History → ℕ → Words
  pub rest : Kernel

abbrev pub accepted : ℕ × Option Errno → SockAddr → Result Errno (ℕ × SockAddr)
accepted (handle, none) sa = ok (handle, sa)
accepted (handle, some e) sa = err e

-- The calls that `Dial`, `Listen`, `Accept` and `newHVsockConn` make, through the wrappers.
abbrev pub kernel : Errno → Libraries → Kernel
kernel einval l = record l.rest {
  on_connect = λ h fd sa. sys_connect einval (l.connect h fd sa);
  on_bind = λ h fd sa. sys_bind einval (l.bind h fd sa);
  on_accept = λ h fd. let (w, sa) = l.accept h fd in accepted (sys_accept einval w) sa;
  on_associate = λ h fd. (create_io_completion_port einval (l.associate h fd)).1;
  on_set_modes = λ h fd. set_file_completion_notification_modes einval (l.set_modes h fd);
}
