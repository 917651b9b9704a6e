-- ===== src/Stress/Echo/Server.antt =====
-- `streamEcho.Server` and `handleRequest` of cmd/sock_stress/stream_echo.go. `io.Copy` is a parameter:
-- on what comes in, how many bytes it has written back, and whether it ends with an error.
pub mod Session
use virtsock.Common.{
  ℕ, ◌+◌, Bool, true, false, ◌&&◌, ◌||◌, Option, none, some, List, [], ◌∷◌, Bytes, take,
  if◌then◌else◌,
}
use virtsock.Stress.Echo.{Config}

abbrev pub Copy : Type 0
Copy = Bytes → ℕ × Bool

-- The loop of `Server` over what `Accept` answers: the number of each connection that it handles,
-- and whether an error has ended the program.
pub accept_loop : {A : Type 0} → ℕ → List (Option A) → List (ℕ × A) × Bool
accept_loop connid [] = ([], false)
accept_loop connid (none ∷ more) = ([], true)
accept_loop connid (some conn ∷ more) =
    let (handled, fatal) = accept_loop (connid + 1) more in ((connid, conn) ∷ handled, fatal)

-- What one call of `handleRequest` does: the bytes that it sends back, the count that it reports, and
-- whether `prError` leaves the program.
pub record Handled : Type 0 where
  pub echoed : Bytes
  pub report : Option ℕ
  pub exits : Bool

-- `handleRequest`; the flag is whether the deferred `Close` fails.
unfoldable pub handle_request : Config → Copy → Bool → Bytes → Handled
handle_request c copy close_fails incoming =
    let (n, failed) = copy incoming in
    record {
      echoed = take n incoming;
      report = if failed then none else some n;
      exits = (failed || close_fails) && c.exit_on_error;
    }
