-- ===== src/Vsock/Linux/Session.antt =====
-- A connection of pkg/vsock on Linux from `Dial` on.
use virtsock.Common.{ℕ, suc, ◌≤◌, ◌≡◌, refl, false, some, List, Result, ok, err}
use virtsock.System.{Kernel, History}
use virtsock.System.Descriptors.{is_interrupt, IsPatient, open_fds}
use virtsock.System.Methods.{
  Methods, Method, Session, fresh, calls, closes, IsBalanced, calls-fresh,
}
use virtsock.Vsock.Linux.{Conn, Error, fcntl, close_read, close_write, file, close, dial}
use virtsock.Vsock.Linux.Dial.{DialOwns, dial-Owns}

unfoldable pub methods : (k : Kernel) → Methods k Conn Error
unfolding close_read close_write file close
methods k = record {
  fd = λ c. c.fd;
  wrap = fcntl;
  close_read = close_read k;
  close_write = close_write k;
  file = file k;
  close = close k;
  close_read_is = λ c. refl;
  close_write_is = λ c. refl;
  file_is = λ closed c. refl;
  close_is = λ closed c. refl;
}

-- What is open at the end, if `ms` are called on what `Dial` has returned.
abbrev pub AfterDial :
    (k : Kernel) → ℕ → ℕ → History → List Method → Result Error Conn → History → Type 0
AfterDial k cid port h ms (ok c) g =
    DialOwns cid port h (ok c) g
    × (t : Session) × (f : History) × (calls k (methods k) c ms fresh g ≡ some (t, f))
    × IsBalanced c.fd (open_fds h) t f
    × (t.closed ≡ closes ms)
AfterDial k cid port h ms (err e) g = open_fds g ≡ open_fds h

-- Over a kernel that interrupts at most `n` calls, and none of `close`, with more rounds than that:
-- `Dial` of pkg/vsock returns. A connection owns the one descriptor that was opened, has the remote
-- address asked for, and its last call was the `connect` that succeeded; with an error the open
-- descriptors are those of before. When `Close`, `CloseRead`, `CloseWrite` and `File` are then called
-- on the connection, as often as one likes and in any order, they all return, and what is open is
-- what was open before `Dial`, the descriptors of the files that `File` has made, and the
-- connection's own unless `Close` has been called.
pub dial-calls-DialOwns :
    (k : Kernel) (n m cid port : ℕ) (h : History) (ms : List Method)
    → IsPatient k n
    → ((g : History) (fd : ℕ) → is_interrupt (k.on_close g fd) ≡ false)
    → n ≤ m
    → (q : Result Error Conn) × (g : History) × (dial k (suc m) cid port h ≡ some (q, g))
      × AfterDial k cid port h ms q g
unfolding methods
dial-calls-DialOwns k n m cid port h ms patient never le =
    let (q, g, eq, owns) = dial-Owns k n patient m cid port h le in (q, g, eq, after q g owns)
  where
    after :
        (q : Result Error Conn) (g : History)
        → DialOwns cid port h q g
        → AfterDial k cid port h ms q g
    after (ok c) g owns =
        let (t, f, eq, balanced, closed) =
          calls-fresh k (methods k) c never (open_fds h) ms g owns.0 in
        (owns, t, f, eq, balanced, closed)
    after (err e) g same = same
