-- ===== src/Stress/Echo/Client/Checksums.antt =====
-- The checksums of a client whose reads and writes are whole.
use virtsock.Common.{
  ℕ, zero, suc, ◌+◌, ◌-◌, ◌≡◌, ◌≤◌, ◌<◌, refl, ap, ◌∙◌, true, false, not, Option, some, [], ◌++◌,
  if◌then◌else◌, Bytes, length, take, drop, equal, arith, append_assoc, append-nil, length-append,
  take-append-drop, length-drop, length-eq-zero,
}
use virtsock.Stress.Echo.{Config, whole, batch_of, data_len}
use virtsock.Stress.Echo.Batches.{InRange, batch_bounds}
use virtsock.Stress.Echo.Client.{
  rand_buf, Course, Sender, Receiver, send_batch, send_loop, receive_batch, receive_loop, End,
  ended, and_compare, and_receive, exited, not_dialled, client,
}

-- The dial succeeds, and every write and every read is whole and in time.
pub record IsSmooth (r : Course) : Type 0 where
  pub dials : r.dials ≡ true
  pub writes : (i : ℕ) → r.tx_answers i ≡ whole
  pub reads : (i : ℕ) → r.rx_answers i ≡ whole

length-rand_buf : (draw : ℕ → ℕ) (n i : ℕ) → length (rand_buf draw n i) ≡ n
unfolding rand_buf
length-rand_buf draw zero i = refl
length-rand_buf draw (suc n) i = ap suc (length-rand_buf draw n (i + 1))

module _ (c : Config) (r : Course) (smooth : IsSmooth r) (ordered : c.min_buf_len ≤ c.max_buf_len)
    (pos : 0 < c.min_buf_len) where
  send_loop_whole :
      (fuel i k : ℕ) (s : Sender)
      → InRange r.tx_sizes
      → k ≤ fuel
      → (bs : Bytes) × (length bs ≡ k)
        × (send_loop c r fuel i s k
            ≡ some (
              record { total = s.total + k; hashed = s.hashed ++ bs; wire = s.wire ++ bs },
              false,
            ))
  unfolding send_loop
  send_loop_whole fuel i zero s range f =
      ([], refl, ground (arith, append-nil s.hashed, append-nil s.wire))
  send_loop_whole zero i (suc k) s range f = absurd (omega arith)
  send_loop_whole (suc fuel) i (suc k) s range f =
      let b = batch_of c r.tx_sizes i (suc k) in
      let txbuf = rand_buf (r.draws i) b 0 in
      let bounds = batch_bounds c r.tx_sizes i k range ordered pos in
      let (bs, size, eq) =
        send_loop_whole fuel (i + 1) (suc k - b) (send_batch whole 0 b txbuf s) range
          (omega arith) in
      (
        txbuf ++ bs,
        omega (arith, length-append txbuf bs, length-rand_buf (r.draws i) b 0),
        rw (smooth.writes i)
            (eq ∙ ground (arith, append_assoc s.hashed txbuf bs, append_assoc s.wire txbuf bs)),
      )

  receive_loop_whole :
      (fuel i k : ℕ) (s : Receiver)
      → InRange r.rx_sizes
      → k ≤ fuel
      → length s.incoming ≡ k
      → receive_loop c r fuel i s k
        ≡ some
            (record { total = s.total + k; hashed = s.hashed ++ s.incoming; incoming = [] }, false)
  unfolding receive_loop
  receive_loop_whole fuel i zero s range f size =
      let none_left = length-eq-zero s.incoming size in ground (arith, append-nil s.hashed)
  receive_loop_whole zero i (suc k) s range f size = absurd (omega arith)
  receive_loop_whole (suc fuel) i (suc k) s range f size =
      let b = batch_of c r.rx_sizes i (suc k) in
      let bounds = batch_bounds c r.rx_sizes i k range ordered pos in
      let eq =
        receive_loop_whole fuel (i + 1) (suc k - b) (receive_batch whole 0 b s) range (omega arith)
          (omega (arith, length-drop b s.incoming)) in
      rw (smooth.reads i) (
        eq
        ∙ ground (
          arith,
          append_assoc s.hashed (take b s.incoming) (drop b s.incoming),
          take-append-drop b s.incoming,
        ))

-- On a smooth course a client ends, has sent and received exactly the length that it drew, and
-- reports a mismatch exactly if the md5 sums of the bytes that it sent and of those that came back
-- differ. This holds for every peer that returns as many bytes as it is sent, if the buffer sizes
-- are positive and in order and the random numbers are in range.
pub client-compares :
    (c : Config) (r : Course) (md5 peer : Bytes → Bytes)
    → IsSmooth r
    → c.min_buf_len ≤ c.max_buf_len
    → 0 < c.min_buf_len
    → InRange r.tx_sizes
    → InRange r.rx_sizes
    → ((bs : Bytes) → length (peer bs) ≡ length bs)
    → (bs : Bytes) × (length bs ≡ data_len c r.tx_sizes)
      × (client c r md5 peer
          ≡ some (ended (length bs) (length bs) (not (equal (md5 bs) (md5 (peer bs))))))
unfolding client
client-compares c r md5 peer smooth ordered pos tx rx keeps =
    let len = data_len c r.tx_sizes in
    let (bs, size, eq) =
      send_loop_whole c r smooth ordered pos len 1 len
        (record { total = 0; hashed = []; wire = [] }) tx (omega arith) in
    let incoming : Receiver = record { total = 0; hashed = []; incoming = peer bs } in
    let back =
      receive_loop_whole c r smooth ordered pos len 1 len incoming rx (omega arith)
        (keeps bs ∙ size) in
    let sums = not (equal (md5 bs) (md5 (peer bs))) in
    let total : 0 + len ≡ length bs = omega arith in
    (
      bs,
      size,
      ap (λ d. if d then and_receive c r md5 peer len (send_loop c r len 1 blank len) else gone)
            smooth.dials
          ∙ ap (and_receive c r md5 peer len) eq
          ∙ ap (and_compare md5 (record { total = 0 + len; hashed = bs; wire = bs }, false)) back
          ∙ ap (λ n. some (ended n n sums)) total,
    )
  where
    blank : Sender
    blank = record { total = 0; hashed = []; wire = [] }

    gone : Option End
    gone = some (if c.exit_on_error then exited else not_dialled)
