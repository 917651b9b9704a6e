-- ===== src/Tests/Clients.antt =====
-- The clients of sock_stress, at concrete inputs.
use virtsock.Common.{
  count, ℕ, zero, suc, ◌≤◌, ◌<◌, ◌≡◌, refl, false, none, some, Option, ◌∷◌, [], arith,
}
use virtsock.Stress.Clients.{
  State, Reach, step, here, next, start, taking, holding, running, act, spawn,
}
use virtsock.Stress.Clients.Parallel.{AreDone, Reach-started}
use virtsock.Stress.Clients.Numbers.{is, within}
use virtsock.Stress.Echo.{Config, Intn, Answer, timed_out, transfer}
use virtsock.Stress.Echo.Batches.{Covers, transfer-Covers}
use virtsock.Stress.Echo.ReadFull.{ReadError, eof, FullError, read_full, Verdict, read_full-Verdict}

-- Both workers have taken a number, and the second goes on first.
abbrev second_first : State
second_first = record {
  shared = record { conn_counter = 2; started = 2 ∷ [] };
  workers = holding 1 ∷ running 2 ∷ [];
}

second_first-Reach : Reach 3 (start 2) second_first
unfolding act spawn
second_first-Reach =
    next
      (next
        (next here (
          step [] (taking ∷ []) taking (holding 1) (record { conn_counter = 1; started = [] }) refl
            refl refl))
        (step (holding 1 ∷ []) [] taking (holding 2) (record { conn_counter = 2; started = [] })
          refl refl refl))
      (step (holding 1 ∷ []) [] (holding 2) (running 2) second_first.shared refl refl refl)

Reach-started_example :
    (count (is 2) (2 ∷ []) ≤ within 3 2)
    × (AreDone (holding 1 ∷ running 2 ∷ []) → count (is 2) (2 ∷ []) ≡ within 3 2)
Reach-started_example =
    Reach-started 3 2 2 second_first (omega arith) (omega arith) second_first-Reach

-- Batches of 1 to 4 bytes.
abbrev small_batches : Config
small_batches = record {
  min_data_len = 0;
  max_data_len = 10;
  min_buf_len = 1;
  max_buf_len = 4;
  exit_on_error = false;
}

abbrev always_zero : Intn
always_zero i n = 0

abbrev never_in_time : ℕ → Answer
never_in_time i = timed_out

transfer-Covers_example :
    Covers small_batches 0 5 (transfer 5 small_batches always_zero never_in_time 5)
transfer-Covers_example =
    transfer-Covers small_batches always_zero never_in_time 5 (λ i n h. h) (omega arith)
      (omega arith)

-- `-B 0 -b 0`.
abbrev empty_batches : Config
empty_batches = record small_batches { min_buf_len = 0; max_buf_len = 0 }

-- A reader with a number of bytes left, which it gives one by one.
abbrev trickle : ℕ → ℕ → (ℕ × Option (ReadError ℕ)) × ℕ
trickle zero left = ((0, none), left)
trickle (suc m) zero = ((0, some eof), 0)
trickle (suc m) (suc left) = ((1, none), left)

trickle-IsReader :
    (m s : ℕ) → ((trickle m s).0.0 ≤ m) × ((trickle m s).0.1 ≡ none → 0 < m → 0 < (trickle m s).0.0)
trickle-IsReader zero left = (omega arith, λ _ h. absurd (omega arith))
trickle-IsReader (suc m) zero = (omega arith, λ e. cc)
trickle-IsReader (suc m) (suc left) = (omega arith, λ _ _. omega arith)

read_full-Verdict_example :
    (n : ℕ) × (e : Option (FullError ℕ)) × (t : ℕ) × (read_full trickle 3 3 2 ≡ some ((n, e), t))
    × Verdict trickle 3 n e
read_full-Verdict_example = read_full-Verdict trickle 3 2 trickle-IsReader
