-- ===== src/Stress/Echo/Server/Session.antt =====
-- A client of the stream test against its server.
use virtsock.Common.{
  ℕ, Option, none, List, ◌+◌, ◌≡◌, ◌≤◌, ◌<◌, refl, sym, ap, ◌∙◌, Bool, true, false, not, some, ◌∷◌,
  [], Bytes, length, take, equal, equal_iff,
}
use virtsock.Stress.Echo.{Config, data_len}
use virtsock.Stress.Echo.Batches.{InRange}
use virtsock.Stress.Echo.Client.{Course, ended, client}
use virtsock.Stress.Echo.Client.Checksums.{IsSmooth, client-compares}
use virtsock.Stress.Echo.Server.{accept_loop, Copy, handle_request}

-- The connections that are accepted before the first error.
abbrev accepted : {A : Type 0} → List (Option A) → List A
accepted [] = []
accepted (none ∷ more) = []
accepted (some conn ∷ more) = conn ∷ accepted more

abbrev number_from : {A : Type 0} → ℕ → List A → List (ℕ × A)
number_from i [] = []
number_from i (x ∷ xs) = (i, x) ∷ number_from (i + 1) xs

-- The connections are handled in the order in which they are accepted, with consecutive numbers.
accept_loop-number_from :
    {A : Type 0} (i : ℕ) (answers : List (Option A))
    → (accept_loop i answers).0 ≡ number_from i (accepted answers)
unfolding accept_loop
accept_loop-number_from i [] = refl
accept_loop-number_from i (none ∷ more) = refl
accept_loop-number_from i (some conn ∷ more) =
    ap (◌∷◌ (i, conn)) (accept_loop-number_from (i + 1) more)

-- `io.Copy` on a connection that does not fail: it writes all that it reads, without an error.
pub record IsWhole (copy : Copy) : Type 0 where
  pub copies : (bs : Bytes) → copy bs ≡ (length bs, false)

take-length : (bs : Bytes) → take (length bs) bs ≡ bs
take-length [] = refl
take-length (b ∷ bs) = ap (◌∷◌ b) (take-length bs)

handle_request-echoed :
    (c : Config) (copy : Copy) (close_fails : Bool) (bs : Bytes)
    → IsWhole copy
    → (handle_request c copy close_fails bs).echoed ≡ bs
unfolding handle_request
handle_request-echoed c copy close_fails bs whole = rw (whole.copies bs) (take-length bs)

handle_request-report :
    (c : Config) (copy : Copy) (close_fails : Bool) (bs : Bytes)
    → IsWhole copy
    → (handle_request c copy close_fails bs).report ≡ some (length bs)
unfolding handle_request
handle_request-report c copy close_fails bs whole = rw (whole.copies bs) refl

-- A client of the stream test against the server of the stream test, on a smooth course and with a
-- copy that does not fail: whatever md5 and the random numbers in range are, if the buffer sizes are
-- positive and in order, the client ends, has sent and received as many bytes as it drew, reports no
-- mismatch, and the server reports the same number.
pub client-handle_request :
    (c : Config) (r : Course) (md5 : Bytes → Bytes) (copy : Copy) (close_fails : Bool)
    → IsSmooth r
    → IsWhole copy
    → c.min_buf_len ≤ c.max_buf_len
    → 0 < c.min_buf_len
    → InRange r.tx_sizes
    → InRange r.rx_sizes
    → (bs : Bytes) × (length bs ≡ data_len c r.tx_sizes)
      × (client c r md5 (λ sent. (handle_request c copy close_fails sent).echoed)
          ≡ some (ended (length bs) (length bs) false))
      × ((handle_request c copy close_fails bs).report ≡ some (length bs))
client-handle_request c r md5 copy close_fails smooth whole ordered pos tx rx =
    let peer = λ (sent : Bytes). (handle_request c copy close_fails sent).echoed in
    let echoes = λ (sent : Bytes). handle_request-echoed c copy close_fails sent whole in
    let (bs, size, eq) =
      client-compares c r md5 peer smooth ordered pos tx rx (λ sent. ap length (echoes sent)) in
    let same : equal (md5 bs) (md5 (peer bs)) ≡ true =
      (equal_iff _ _).1 (ap md5 (sym (echoes bs))) in
    (
      bs,
      size,
      eq ∙ ap (λ b. some (ended (length bs) (length bs) (not b))) same,
      handle_request-report c copy close_fails bs whole,
    )
