-- ===== src/Stress/Dgram/Totals.antt =====
-- The two numbers that a client of the datagram test reports.
use mathlib.Core.List.{Sublistᴰ}
use virtsock.Common.{
  ◌^◌, ◌-◌, ℕ, ◌+◌, ◌≤◌, ◌≡◌, refl, sym, subst, Bool, true, false, Option, none, some, List, [],
  ◌∷◌, Bytes, length, length-take, min, arith, All, Bool-cases, inl, inr,
}
use virtsock.Stress.Echo.{Config, Intn, Answer, finished, data_len, buf_size, transfer}
use virtsock.Stress.Echo as Echo
use virtsock.Stress.Echo.Batches.{InRange, sum, Covers, transfer-Covers}
use virtsock.Stress.Dgram.{
  Incoming, datagram, read_error, serve, with_sizes, Arrival, arrived, failed_read, late_read,
  receive_loop, End, not_dialled, panicked, overflows, exited, report, report_or_exit, and_receive,
  client,
}

abbrev pub sizes_of : {A : Type 0} → List (Incoming A) → List ℕ
sizes_of [] = []
sizes_of (datagram packet addr ∷ more) = length packet ∷ sizes_of more
sizes_of (read_error ∷ more) = sizes_of more

abbrev pub arrived_of : List Arrival → List ℕ
arrived_of [] = []
arrived_of (arrived l ∷ more) = l ∷ arrived_of more
arrived_of (failed_read ∷ more) = arrived_of more
arrived_of (late_read ∷ more) = arrived_of more

abbrev pub reply_sizes : {A : Type 0} → List (Bytes × A) → List ℕ
reply_sizes [] = []
reply_sizes ((packet, addr) ∷ more) = length packet ∷ reply_sizes more

-- A network that may lose datagrams on the way to the server and back, and adds none.
pub record IsEchoed (sizes : List ℕ) (arrivals : List Arrival) : Type 0 where
  pub seen : List (Incoming ℕ)
  pub sent : Sublistᴰ (sizes_of seen) sizes
  pub back : Sublistᴰ (arrived_of arrivals) (reply_sizes (serve seen))

sum_mono : {xs ys : List ℕ} → Sublistᴰ xs ys → sum xs ≤ sum ys
sum_mono Sublistᴰ.slnil = omega arith
sum_mono (Sublistᴰ.cons s) = omega (arith, sum_mono s)
sum_mono (Sublistᴰ.cons-cons e s) = omega (arith, e, sum_mono s)

-- The server sends back no more than it has received, and at most 4096 bytes at a time.
pub serve_bounded :
    {A : Type 0} (incoming : List (Incoming A))
    → (sum (reply_sizes (serve incoming)) ≤ sum (sizes_of incoming))
      × All (λ n. n ≤ 4096) (reply_sizes (serve incoming))
unfolding serve
serve_bounded [] = (omega arith, tt)
serve_bounded (datagram packet addr ∷ more) =
    let (total, each) = serve_bounded more in
    (omega (arith, length-take 4096 packet), (omega (arith, length-take 4096 packet), each))
serve_bounded (read_error ∷ more) = (omega arith, tt)

receive_loop_bounded :
    (c : Config) (intn : Intn) (i total : ℕ) (arrivals : List Arrival)
    → (receive_loop c intn i total arrivals).0 ≤ total + sum (arrived_of arrivals)
unfolding receive_loop
receive_loop_bounded c intn i total [] = omega arith
receive_loop_bounded c intn i total (arrived l ∷ more) =
    omega (arith, receive_loop_bounded c intn (i + 1) (total + min l (buf_size c intn i)) more)
receive_loop_bounded c intn i total (failed_read ∷ more) = omega arith
receive_loop_bounded c intn i total (late_read ∷ more) = omega arith

receive_loop_exits :
    (c : Config) (intn : Intn) (i total : ℕ) (arrivals : List Arrival)
    → (receive_loop c intn i total arrivals).1 ≡ true
    → c.exit_on_error ≡ true
unfolding receive_loop
receive_loop_exits c intn i total [] e = cc
receive_loop_exits c intn i total (arrived l ∷ more) e =
    receive_loop_exits c intn (i + 1) (total + min l (buf_size c intn i)) more e
receive_loop_exits c intn i total (failed_read ∷ more) e = cc
receive_loop_exits c intn i total (late_read ∷ more) e = e

-- How a client may end that transfers `len` bytes.
abbrev pub Reports : Bool → Config → ℕ → Option End → Type 0
Reports dials c len none = ⊥
Reports dials c len (some not_dialled) = (dials ≡ false) × (c.exit_on_error ≡ false)
Reports dials c len (some panicked) =
    (dials ≡ true) × (2 ^ 63 ≤ c.max_data_len - c.min_data_len + 1)
Reports dials c len (some exited) = c.exit_on_error ≡ true
Reports dials c len (some (report tx rx)) = (dials ≡ true) × (tx ≡ len) × (rx ≤ tx)

report_or_exit-Reports :
    (c : Config) (len : ℕ) (rx : ℕ × Bool)
    → rx.0 ≤ len
    → (rx.1 ≡ true → c.exit_on_error ≡ true)
    → Reports true c len (some (report_or_exit len rx))
report_or_exit-Reports c len (rx, true) le out = out refl
report_or_exit-Reports c len (rx, false) le out = (refl, refl, le)

and_receive-Reports :
    (c : Config) (intn : Intn) (network : List ℕ → List Arrival) (len : ℕ) (sent : Option Echo.End)
    → ((sizes : List ℕ) → IsEchoed sizes (network sizes))
    → Covers c 0 len sent
    → Reports true c len (and_receive c intn network sent)
and_receive-Reports c intn network len none echoes covers = covers
and_receive-Reports c intn network len (some (Echo.exited sizes)) echoes covers = covers.0
and_receive-Reports c intn network len (some (finished tx sizes)) echoes (total, cut, each) =
    let v = echoes sizes in
    let there = sum_mono v.sent in
    let at_server = (serve_bounded v.seen).0 in
    let home = sum_mono v.back in
    let rx = receive_loop c intn 1 0 (network sizes) in
    let bound = receive_loop_bounded c intn 1 0 (network sizes) in
    let tx_is : tx ≡ len = omega arith in
    subst (λ n. Reports true c len (some (report_or_exit n rx))) (sym tx_is)
      (report_or_exit-Reports c len rx (omega arith)
        (receive_loop_exits c intn 1 0 (network sizes)))

overflows-le : (c : Config) → overflows c ≡ true → 2 ^ 63 ≤ c.max_data_len - c.min_data_len + 1
overflows-le c e = ground arith

-- Whatever the answers of the writes and the timer are, and the limits of the command line, none of
-- them negative, a client of the datagram test ends. It panics only if it has dialled and the number
-- of lengths to choose from, one more than the difference of the limits, is 2 ^ 63 or more.
-- Otherwise it reports the length that it drew as sent, failed writes included, and no more than that
-- as received; it leaves the program only if errors do, and reports nothing otherwise only if the
-- dial failed. The network may lose datagrams on both ways, but makes none and keeps their order, and
-- the random numbers are in range.
pub client-Reports :
    (dials : Bool) (c : Config) (tx_sizes rx_sizes : Intn) (answers : ℕ → Answer)
    (network : List ℕ → List Arrival)
    → InRange tx_sizes
    → ((sizes : List ℕ) → IsEchoed sizes (network sizes))
    → Reports dials c (data_len c tx_sizes) (client dials c tx_sizes rx_sizes answers network)
unfolding client
client-Reports true c tx_sizes rx_sizes answers network range echoes =
    let len = data_len c tx_sizes in
    elim (Bool-cases (overflows c)) [
      | inl wraps ↦ rw wraps (refl, overflows-le c wraps)
      | inr fits ↦ rw fits (
          and_receive-Reports (with_sizes c) rx_sizes network len _ echoes
            (transfer-Covers (with_sizes c) tx_sizes answers len range (omega arith) (omega arith)))
    ]
client-Reports false c tx_sizes rx_sizes answers network range echoes =
    elim (Bool-cases c.exit_on_error) [ inl out ↦ rw out refl | inr on ↦ rw on (refl, refl) ]
