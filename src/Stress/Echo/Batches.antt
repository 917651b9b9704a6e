-- ===== src/Stress/Echo/Batches.antt =====
-- What the batches of a transfer add up to.
use virtsock.Common.{
  ℕ, zero, suc, ◌+◌, ◌-◌, ◌≡◌, ◌<◌, ◌≤◌, refl, true, false, Option, none, some, List, [], ◌∷◌,
  arith, All, Bool-cases, inl, inr,
}
use virtsock.Stress.Echo.{
  Config, Answer, whole, failed, timed_out, Intn, batch_of, exits, End, finished, exited, add_batch,
  transfer_loop, transfer,
}

-- The documented range of `rand.Intn`.
abbrev pub InRange : Intn → Type 0
InRange intn = (i n : ℕ) → 0 < n → intn i n < n

abbrev pub sum : List ℕ → ℕ
sum [] = 0
sum (n ∷ ns) = n + sum ns

pub batch_bounds :
    (c : Config) (intn : Intn) (i k : ℕ)
    → InRange intn
    → c.min_buf_len ≤ c.max_buf_len
    → 0 < c.min_buf_len
    → (0 < batch_of c intn i (suc k))
      × (batch_of c intn i (suc k) ≤ suc k)
      × (batch_of c intn i (suc k) ≤ c.max_buf_len)
unfolding batch_of
batch_bounds c intn i k h le pos = ground (arith, h i (c.max_buf_len - c.min_buf_len + 1))

-- The whole length has been cut into batches of an admissible size, unless the program exited.
abbrev pub Covers : Config → ℕ → ℕ → Option End → Type 0
Covers c total len none = ⊥
Covers c total len (some (finished t sizes)) =
    (t ≡ total + len) × (sum sizes ≡ len) × All (λ b. (0 < b) × (b ≤ c.max_buf_len)) sizes
Covers c total len (some (exited sizes)) =
    (c.exit_on_error ≡ true) × (sum sizes ≤ len) × All (λ b. (0 < b) × (b ≤ c.max_buf_len)) sizes

add_batch-Covers :
    (c : Config) (total b len : ℕ) (e : Option End)
    → (0 < b) × (b ≤ len) × (b ≤ c.max_buf_len)
    → Covers c (total + b) (len - b) e
    → Covers c total len (add_batch b e)
add_batch-Covers c total b len none h v = v
add_batch-Covers c total b len (some (finished t sizes)) h v =
    (omega arith, omega arith, ((h.0, h.2), v.2))
add_batch-Covers c total b len (some (exited sizes)) h v = (v.0, omega arith, ((h.0, h.2), v.2))

loop-Covers :
    (c : Config) (intn : Intn) (answers : ℕ → Answer) (fuel i total len : ℕ)
    → InRange intn
    → c.min_buf_len ≤ c.max_buf_len
    → 0 < c.min_buf_len
    → len ≤ fuel
    → Covers c total len (transfer_loop c intn answers fuel i total len)
unfolding transfer_loop
loop-Covers c intn answers fuel i total zero h le pos f = (omega arith, refl, tt)
loop-Covers c intn answers zero i total (suc k) h le pos f = absurd (omega arith)
loop-Covers c intn answers (suc fuel) i total (suc k) h le pos f =
    let b = batch_of c intn i (suc k) in
    let bounds = batch_bounds c intn i k h le pos in
    elim (Bool-cases (exits c (answers i))) [
      | inl out ↦ rw out (exit_only (answers i) out, omega arith, ((bounds.0, bounds.2), tt))
      | inr on ↦ rw on (
          add_batch-Covers c total b (suc k) _ bounds (
            loop-Covers c intn answers fuel (i + 1) (total + b) (suc k - b) h le pos (omega arith)))
    ]
  where
    exit_only : (a : Answer) → exits c a ≡ true → c.exit_on_error ≡ true
    exit_only whole e = cc
    exit_only failed e = e
    exit_only timed_out e = e

-- If the least buffer size is positive and not above the greatest, then one round for each byte is
-- enough for a transfer to end, whatever the writes answer. Each batch has 1 to `maxBufLen` bytes.
-- Unless errors exit the program, the batches add up to the length of the transfer, and so does the
-- total that is reported, failed and timed out writes included.
pub transfer-Covers :
    (c : Config) (intn : Intn) (answers : ℕ → Answer) (len : ℕ)
    → InRange intn
    → c.min_buf_len ≤ c.max_buf_len
    → 0 < c.min_buf_len
    → Covers c 0 len (transfer len c intn answers len)
unfolding transfer
transfer-Covers c intn answers len h le pos =
    loop-Covers c intn answers len 1 0 len h le pos (omega arith)

stuck-batch :
    (c : Config) (intn : Intn) (i k : ℕ)
    → c.max_buf_len ≡ 0
    → c.min_buf_len ≡ 0
    → batch_of c intn i (suc k) ≡ 0
unfolding batch_of
stuck-batch c intn i k h e = ground arith

never_exits : (c : Config) (a : Answer) → c.exit_on_error ≡ false → exits c a ≡ false
never_exits c whole x = refl
never_exits c failed x = x
never_exits c timed_out x = x

loop_stuck :
    (c : Config) (intn : Intn) (answers : ℕ → Answer) (fuel i total k : ℕ)
    → c.max_buf_len ≡ 0
    → c.min_buf_len ≡ 0
    → c.exit_on_error ≡ false
    → transfer_loop c intn answers fuel i total (suc k) ≡ none
unfolding transfer_loop
loop_stuck c intn answers zero i total k h e x = refl
loop_stuck c intn answers (suc fuel) i total k h e x =
    let left : suc k - 0 ≡ suc k = omega arith in
    rw
      (
        never_exits c (answers i) x,
        stuck-batch c intn i k h e,
        left,
        loop_stuck c intn answers fuel (i + 1) (total + 0) k h e x,
      )
      refl

-- With buffer sizes of 0 (`-B 0 -b 0`) and errors that do not exit, a transfer of one byte or more
-- never ends.
transfer_stuck :
    (c : Config) (intn : Intn) (answers : ℕ → Answer) (fuel k : ℕ)
    → c.max_buf_len ≡ 0
    → c.min_buf_len ≡ 0
    → c.exit_on_error ≡ false
    → transfer fuel c intn answers (suc k) ≡ none
unfolding transfer
transfer_stuck c intn answers fuel k = loop_stuck c intn answers fuel 1 0 k
