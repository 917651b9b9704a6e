-- ===== src/System/OsFile.antt =====
-- `os.File` of Go over a descriptor, as far as connections use it: `Close` closes the descriptor the
-- first time and is an error after that, and `Fd` of a closed file is the word of all ones.
use virtsock.Common.{ℕ, ◌-◌, ◌^◌, Bool, true, false, Option, none, some}
use virtsock.System.{Errno, Kernel, Run, return, ◌>>=◌, call_close}

pub data FileError : Type 0 where
  already_closed : FileError
  failed_close : Errno → FileError

abbrev pub fd_of : Bool → ℕ → ℕ
fd_of true fd = 2 ^ 64 - 1
fd_of false fd = fd

abbrev pub file_error : Option Errno → Option FileError
file_error none = none
file_error (some e) = some (failed_close e)

-- The flag is whether the file has been closed.
abbrev pub close_file : Kernel → Bool → ℕ → Run (Option FileError × Bool)
close_file k true fd = return (some already_closed, true)
close_file k false fd = do r ← call_close k fd; return (file_error r, true)
