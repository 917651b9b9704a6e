-- ===== src/Stress/Echo/Client.antt =====
-- `streamEcho.Client` of cmd/sock_stress/stream_echo.go with the bytes that it sends, receives and
-- hashes. The random numbers, the answers of the reads and writes, md5 and the peer are parameters.
pub mod Checksums
use virtsock.Common.{
  ℕ, zero, suc, ◌+◌, ◌-◌, ◌*◌, ◌%◌, Bool, true, false, not, Option, none, some, List, [], ◌∷◌, ◌++◌,
  if◌then◌else◌, Bytes, length, take, drop, replicate, equal,
}
use virtsock.Stress.Echo.{Config, Intn, Answer, whole, failed, timed_out, exits, batch_of, data_len}

-- `randBuf`, from the draws of `rand.Intn(255)` that start at the given one.
pub rand_buf : (ℕ → ℕ) → ℕ → ℕ → Bytes
rand_buf draw zero i = []
rand_buf draw (suc n) i = draw i % 256 ∷ rand_buf draw n (i + 1)

-- What one run of a client meets. Random sizes, draws and answers go by the number of the round;
-- `tx_partial` and `rx_partial` say how many bytes a write or a read that is not whole has moved.
pub record Course : Type 0 where
  pub dials : Bool
  pub tx_sizes : Intn
  pub rx_sizes : Intn
  pub draws : ℕ → ℕ → ℕ
  pub tx_answers : ℕ → Answer
  pub rx_answers : ℕ → Answer
  pub tx_partial : ℕ → ℕ
  pub rx_partial : ℕ → ℕ

-- The sender: `total`, what `hash0` has been given, and what the connection has taken.
pub record Sender : Type 0 where
  pub total : ℕ
  pub hashed : Bytes
  pub wire : Bytes

abbrev pub taken : Answer → ℕ → Bytes → Bytes
taken whole n txbuf = txbuf
taken failed n txbuf = take n txbuf
taken timed_out n txbuf = take n txbuf

abbrev pub send_batch : Answer → ℕ → ℕ → Bytes → Sender → Sender
send_batch a n batch txbuf s = record {
  total = s.total + batch;
  hashed = s.hashed ++ txbuf;
  wire = s.wire ++ taken a n txbuf;
}

-- The sending loop. The flag of the result is whether `prError` has left the program; `none` means
-- that the fuel ran out.
pub send_loop : Config → Course → ℕ → ℕ → Sender → ℕ → Option (Sender × Bool)
send_loop c r fuel i s zero = some (s, false)
send_loop c r zero i s (suc k) = none
send_loop c r (suc fuel) i s (suc k) =
    let batch = batch_of c r.tx_sizes i (suc k) in
    let s' = send_batch (r.tx_answers i) (r.tx_partial i) batch (rand_buf (r.draws i) batch 0) s in
    let rest = send_loop c r fuel (i + 1) s' (suc k - batch) in
    if exits c (r.tx_answers i) then some (s', true) else rest

-- The receiver: `totalReceived`, what `hash1` has been given, and what is still to be read.
pub record Receiver : Type 0 where
  pub total : ℕ
  pub hashed : Bytes
  pub incoming : Bytes

-- The buffer of a batch, zeroed by `make`, after a read.
abbrev pub filled : Answer → ℕ → ℕ → Bytes → Bytes
filled whole n batch incoming = take batch incoming
filled failed n batch incoming =
    let got = take n (take batch incoming) in got ++ replicate (batch - length got) 0
filled timed_out n batch incoming =
    let got = take n (take batch incoming) in got ++ replicate (batch - length got) 0

abbrev pub left : Answer → ℕ → ℕ → Bytes → Bytes
left whole n batch incoming = drop batch incoming
left failed n batch incoming = drop (length (take n (take batch incoming))) incoming
left timed_out n batch incoming = drop (length (take n (take batch incoming))) incoming

abbrev pub receive_batch : Answer → ℕ → ℕ → Receiver → Receiver
receive_batch a n batch r = record {
  total = r.total + batch;
  hashed = r.hashed ++ filled a n batch r.incoming;
  incoming = left a n batch r.incoming;
}

-- The receiving loop.
pub receive_loop : Config → Course → ℕ → ℕ → Receiver → ℕ → Option (Receiver × Bool)
receive_loop c r fuel i s zero = some (s, false)
receive_loop c r zero i s (suc k) = none
receive_loop c r (suc fuel) i s (suc k) =
    let batch = batch_of c r.rx_sizes i (suc k) in
    let s' = receive_batch (r.rx_answers i) (r.rx_partial i) batch s in
    let rest = receive_loop c r fuel (i + 1) s' (suc k - batch) in
    if exits c (r.rx_answers i) then some (s', true) else rest

-- How a client ends: with the two totals, and whether it reports that the checksums differ.
pub data End : Type 0 where
  not_dialled exited : End
  ended : ℕ → ℕ → Bool → End

abbrev pub compare_sums : (Bytes → Bytes) → Sender × Bool → Receiver × Bool → End
compare_sums md5 (s, true) r = exited
compare_sums md5 (s, false) (r, true) = exited
compare_sums md5 (s, false) (r, false) =
    ended s.total r.total (not (equal (md5 s.hashed) (md5 r.hashed)))

abbrev pub and_compare : (Bytes → Bytes) → Sender × Bool → Option (Receiver × Bool) → Option End
and_compare md5 s none = none
and_compare md5 s (some x) = some (compare_sums md5 s x)

abbrev pub and_receive :
    Config → Course → (Bytes → Bytes) → (Bytes → Bytes) → ℕ → Option (Sender × Bool) → Option End
and_receive c r md5 peer buflen none = none
and_receive c r md5 peer buflen (some s) =
    let start : Receiver = record { total = 0; hashed = []; incoming = peer s.0.wire } in
    and_compare md5 s (receive_loop c r buflen 1 start buflen)

-- `Client`. The sender runs in a goroutine of its own, and what the peer answers is a function of
-- all that it is sent: the receiver waits for each byte, so it finds the same bytes in any order of
-- the two. `prError` on a failed dial returns or leaves the program.
unfoldable pub client : Config → Course → (Bytes → Bytes) → (Bytes → Bytes) → Option End
unfolding rand_buf send_loop receive_loop
client c r md5 peer =
    let buflen = data_len c r.tx_sizes in
    let sent = send_loop c r buflen 1 (record { total = 0; hashed = []; wire = [] }) buflen in
    if r.dials
    then and_receive c r md5 peer buflen sent
    else some (if c.exit_on_error then exited else not_dialled)
