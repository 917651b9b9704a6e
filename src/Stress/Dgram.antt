-- ===== src/Stress/Dgram.antt =====
-- cmd/sock_stress/dgram_echo.go, with limits that are not negative: the echo server and client over
-- datagrams. A datagram that is read into a buffer loses what does not fit. The addresses, the random
-- numbers, the answers of the writes and what arrives back are parameters.
pub mod Totals
use virtsock.Common.{
  ◌-◌, ◌^◌, ◌&&◌, ltb, leb, ℕ, ◌+◌, Bool, true, false, Option, none, some, List, [], ◌∷◌,
  if◌then◌else◌, Bytes, take, min,
}
use virtsock.Stress.Echo.{Config, Intn, Answer, finished, data_len, buf_size, transfer}
use virtsock.Stress.Echo as Echo

-- What `ReadFrom` of the server returns next: a datagram, as sent, with its sender, or an error.
pub data Incoming (A : Type 0) : Type 0 where
  datagram : Bytes → A → Incoming A
  read_error : Incoming A

-- The loop of `Server` with its buffer of 4096 bytes: what it writes, and to whom. It ends on an
-- error; without one it waits when nothing more comes.
unfoldable pub serve : {A : Type 0} → List (Incoming A) → List (Bytes × A)
serve [] = []
serve (datagram packet addr ∷ more) = (take 4096 packet, addr) ∷ serve more
serve (read_error ∷ more) = []

-- The sizes that `Client` sets in place of those of the command line.
abbrev pub with_sizes : Config → Config
with_sizes c = record c { min_buf_len = 1; max_buf_len = 8192 }

-- What a read of the client sees: a datagram of a size, an error, or the timer.
pub data Arrival : Type 0 where
  arrived : ℕ → Arrival
  failed_read late_read : Arrival

-- The receiving goroutine, until `c.Close` makes a read fail: what it sends on `w`, and whether
-- `prError` has left the program.
unfoldable pub receive_loop : Config → Intn → ℕ → ℕ → List Arrival → ℕ × Bool
unfolding buf_size
receive_loop c intn i total [] = (total, false)
receive_loop c intn i total (arrived l ∷ more) =
    receive_loop c intn (i + 1) (total + min l (buf_size c intn i)) more
receive_loop c intn i total (failed_read ∷ more) = (total, false)
receive_loop c intn i total (late_read ∷ more) = (total, c.exit_on_error)

-- `rand.Intn(maxDataLen - minDataLen + 1)` panics: the sum of the three, which are of type `int` and
-- not negative, wraps.
abbrev pub overflows : Config → Bool
overflows c =
    ltb c.min_data_len c.max_data_len && leb (2 ^ 63) (c.max_data_len - c.min_data_len + 1)

-- How a client ends; `report` has the numbers of bytes behind `TX=` and `RX=`.
pub data End : Type 0 where
  not_dialled panicked exited : End
  report : ℕ → ℕ → End

abbrev pub report_or_exit : ℕ → ℕ × Bool → End
report_or_exit tx (rx, true) = exited
report_or_exit tx (rx, false) = report tx rx

-- The network and the server, on the sizes of the datagrams that the client has sent.
abbrev pub and_receive : Config → Intn → (List ℕ → List Arrival) → Option Echo.End → Option End
and_receive c intn network none = none
and_receive c intn network (some (Echo.exited sizes)) = some exited
and_receive c intn network (some (finished tx sizes)) =
    some (report_or_exit tx (receive_loop c intn 1 0 (network sizes)))

-- `Client`; the first flag is whether the dial succeeds. Its sending loop is that of the stream test
-- with other sizes.
unfoldable pub client :
    Bool → Config → Intn → Intn → (ℕ → Answer) → (List ℕ → List Arrival) → Option End
unfolding transfer
client dials c tx_sizes rx_sizes answers network =
    let buflen = data_len c tx_sizes in
    let sent = transfer buflen (with_sizes c) tx_sizes answers buflen in
    if dials
    then (if overflows c then some panicked else and_receive (with_sizes c) rx_sizes network sent)
    else some (if c.exit_on_error then exited else not_dialled)
