-- ===== src/Hvsock/Linux/Session.antt =====
-- A connection of pkg/hvsock on Linux from `Dial` on.
use virtsock.Common.{ℕ, suc, ◌≤◌, ◌≡◌, refl, false, some, List, Result, ok, err}
use virtsock.System.{Kernel, History}
use virtsock.System.Descriptors.{is_interrupt, IsPatient, open_fds}
use virtsock.System.Methods.{
  Methods, Method, Session, fresh, calls, closes, IsBalanced, calls-fresh,
}
use virtsock.Hvsock.Linux.{Conn, Error, fcntl, close_read, close_write, file, close, dial}
use virtsock.Hvsock.Linux.Descriptors.{DialLeaks, dial-DialLeaks}
use virtsock.Hvsock.Addr.{Addr}

unfoldable pub methods : (k : Kernel) → Methods k Conn Error
unfolding close_read close_write file close
methods k = record {
  fd = λ c. c.fd;
  wrap = fcntl;
  close_read = close_read k;
  close_write = close_write k;
  file = file k;
  close = close k;
  close_read_is = λ c. refl;
  close_write_is = λ c. refl;
  file_is = λ closed c. refl;
  close_is = λ closed c. refl;
}

-- What is open at the end, if `ms` are called on what `Dial` has returned.
abbrev pub AfterDial :
    (k : Kernel) → Addr → History → List Method → Result Error Conn → History → Type 0
AfterDial k a h ms (ok c) g =
    DialLeaks a h (ok c) g
    × (t : Session) × (f : History) × (calls k (methods k) c ms fresh g ≡ some (t, f))
    × IsBalanced c.fd (open_fds h) t f
    × (t.closed ≡ closes ms)
AfterDial k a h ms (err e) g = DialLeaks a h (err e) g

-- Over a kernel that interrupts at most `n` calls, and none of `close`, with more rounds than that:
-- `Dial` of a Hyper-V socket returns. A connection owns the one descriptor that was opened, has the
-- remote address asked for, and its last call was the `connect` that succeeded; when no socket was
-- made nothing is opened; and an error of `connect` is that of the last call, behind which the
-- socket stays open. When `Close`, `CloseRead`, `CloseWrite` and `File` are then called on the
-- connection, as often as one likes and in any order, they all return, and what is open is what was
-- open before `Dial`, the descriptors of the files that `File` has made, and the connection's own
-- unless `Close` has been called.
pub dial-calls-DialLeaks :
    (k : Kernel) (n m : ℕ) (a : Addr) (h : History) (ms : List Method)
    → IsPatient k n
    → ((g : History) (fd : ℕ) → is_interrupt (k.on_close g fd) ≡ false)
    → n ≤ m
    → (q : Result Error Conn) × (g : History) × (dial k (suc m) a h ≡ some (q, g))
      × AfterDial k a h ms q g
unfolding methods
dial-calls-DialLeaks k n m a h ms patient never le =
    let (q, g, eq, leaks) = dial-DialLeaks k n m a h patient le in (q, g, eq, after q g leaks)
  where
    after : (q : Result Error Conn) (g : History) → DialLeaks a h q g → AfterDial k a h ms q g
    after (ok c) g owns =
        let (t, f, eq, balanced, closed) =
          calls-fresh k (methods k) c never (open_fds h) ms g owns.0 in
        (owns, t, f, eq, balanced, closed)
    after (err e) g leaks = leaks
