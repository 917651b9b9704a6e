-- ===== src/Stress/Echo.antt =====
-- The loops of the echo clients that cut a transfer into batches: cmd/sock_stress/stream_echo.go
-- and dgram_echo.go. `rand.Intn`, the writes and the timer are parameters, by the number of the round.
pub mod Batches
pub mod ReadFull
pub mod Client
pub mod Digest
pub mod Server
use virtsock.Common.{
  ℕ, zero, suc, ◌+◌, ◌-◌, ◌≡◌, ◌<◌, Bool, true, false, Option, none, some, List, [], ◌∷◌, ltb,
  if◌then◌else◌,
}

-- The command line's limits and `exitOnError`. The flags are signed; here the limits are not negative,
-- and the argument of `rand.Intn`, one more than the difference of two of them, is an `int`.
pub record Config : Type 0 where
  pub min_data_len : ℕ
  pub max_data_len : ℕ
  pub min_buf_len : ℕ
  pub max_buf_len : ℕ
  pub exit_on_error : Bool

-- What the `select` of a round sees: a write (or a read) that was whole, one that failed or was
-- short, or the timer.
pub data Answer : Type 0 where
  whole failed timed_out : Answer

-- `rand.Intn`, on the number of the call and its argument.
abbrev pub Intn : Type 0
Intn = ℕ → ℕ → ℕ

-- `buflen`.
unfoldable pub data_len : Config → Intn → ℕ
data_len c intn =
    if ltb c.min_data_len c.max_data_len
    then c.min_data_len + intn 0 (c.max_data_len - c.min_data_len + 1)
    else c.min_data_len

-- `bufsize`, and the `batch` cut from what remains.
unfoldable pub buf_size : Config → Intn → ℕ → ℕ
buf_size c intn i =
    if ltb c.min_buf_len c.max_buf_len
    then c.min_buf_len + intn i (c.max_buf_len - c.min_buf_len + 1)
    else c.min_buf_len

unfoldable pub batch_of : Config → Intn → ℕ → ℕ → ℕ
unfolding buf_size
batch_of c intn i remaining =
    let bufsize = buf_size c intn i in if ltb bufsize remaining then bufsize else remaining

-- `prError`: `log.Fatalf` leaves the program.
abbrev pub exits : Config → Answer → Bool
exits c whole = false
exits c failed = c.exit_on_error
exits c timed_out = c.exit_on_error

-- How the loop ends: with its total, or by `log.Fatalf`; the sizes are those of the batches, in
-- order.
pub data End : Type 0 where
  finished : ℕ → List ℕ → End
  exited : List ℕ → End

abbrev pub add_batch : ℕ → Option End → Option End
add_batch b none = none
add_batch b (some (finished total sizes)) = some (finished total (b ∷ sizes))
add_batch b (some (exited sizes)) = some (exited (b ∷ sizes))

-- The sending loop, and the receiving loop, which differs in what it does with the bytes. A `break`
-- in the `select` leaves the `select` only. The arguments are the fuel, the number of the round,
-- `total` and `remaining`; `none` means that the fuel ran out.
pub transfer_loop : Config → Intn → (ℕ → Answer) → ℕ → ℕ → ℕ → ℕ → Option End
transfer_loop c intn answers fuel i total zero = some (finished total [])
transfer_loop c intn answers zero i total (suc k) = none
transfer_loop c intn answers (suc fuel) i total (suc k) =
    let batch = batch_of c intn i (suc k) in
    let rest = transfer_loop c intn answers fuel (i + 1) (total + batch) (suc k - batch) in
    if exits c (answers i) then some (exited (batch ∷ [])) else add_batch batch rest

-- One transfer of a client: `remaining` starts as `buflen`.
unfoldable pub transfer : ℕ → Config → Intn → (ℕ → Answer) → ℕ → Option End
transfer fuel c intn answers buflen = transfer_loop c intn answers fuel 1 0 buflen
