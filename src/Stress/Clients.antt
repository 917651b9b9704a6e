-- ===== src/Stress/Clients.antt =====
-- cmd/sock_stress/main.go: which connection numbers the clients get, in sequence and in parallel.
pub mod Numbers
pub mod Parallel
use virtsock.Common.{
  refl, ap, length, ℕ, zero, suc, ◌+◌, ◌-◌, ◌%◌, ◌^◌, ◌≡◌, Bool, true, false, Option, none, some,
  List, [], ◌∷◌, ◌++◌, ltb, if◌then◌else◌,
}

-- `for i := 0; i < connections; i++ { t.Client(s, i) }`, with the rounds left and the index: the
-- numbers that `Client` is called with.
pub sequential_loop : ℕ → ℕ → List ℕ
sequential_loop zero i = []
sequential_loop (suc n) i = i ∷ sequential_loop n (i + 1)

unfoldable pub sequential : ℕ → List ℕ
unfolding sequential_loop
sequential connections = sequential_loop connections 0

-- A goroutine that runs `parClient`: about to take a number, with a number that it has taken, before
-- the test and the call of `Client` and perhaps asleep, in `Client` with a number, or done.
pub data Worker : Type 0 where
  taking : Worker
  holding running : ℕ → Worker
  finished : Worker

-- `connCounter`, an `int32` by its bits, and the numbers that `Client` was called with, the latest
-- first.
pub record Shared : Type 0 where
  pub conn_counter : ℕ
  pub started : List ℕ

-- `connid < connections` for an `int32` by its bits: with its top bit set it is negative.
abbrev pub is_below : ℕ → ℕ → Bool
is_below connections c = if ltb c (2 ^ 31) then ltb c connections else true

-- `atomic.AddInt32(&connCounter, 1)`.
abbrev pub take_number : Shared → Shared × Worker
take_number s = let c = (s.conn_counter + 1) % 2 ^ 32 in (record s { conn_counter = c }, holding c)

-- The test of the loop, and the call of `Client`.
abbrev pub test_number : ℕ → ℕ → Shared → Shared × Worker
test_number connections c s =
    if is_below connections c
    then (record s { started = c ∷ s.started }, running c)
    else (s, finished)

-- One action of a worker. When `Client` returns the next number is taken.
unfoldable pub act : ℕ → Shared → Worker → Option (Shared × Worker)
act connections s taking = some (take_number s)
act connections s (holding c) = some (test_number connections c s)
act connections s (running c) = some (take_number s)
act connections s finished = none

pub record State : Type 0 where
  pub shared : Shared
  pub workers : List Worker

pub data Step (connections : ℕ) (s t : State) : Type 0 where
  step :
      (pre post : List Worker) (w w' : Worker) (shared' : Shared)
      → s.workers ≡ pre ++ w ∷ post
      → act connections s.shared w ≡ some (shared', w')
      → t ≡ record { shared = shared'; workers = pre ++ w' ∷ post }
      → Step connections s t

pub data Reach (connections : ℕ) (s : State) : State → Type 0 where
  here : Reach connections s s
  next : {t u : State} → Reach connections s t → Step connections t u → Reach connections s u

-- The loop of `main` that starts `parallel` workers.
unfoldable pub spawn : ℕ → List Worker
spawn zero = []
spawn (suc n) = taking ∷ spawn n

abbrev pub start : ℕ → State
start parallel = record {
  shared = record { conn_counter = 0; started = [] };
  workers = spawn parallel;
}

sequential_loop-length : (n i : ℕ) → length (sequential_loop n i) ≡ n
unfolding sequential_loop
sequential_loop-length zero i = refl
sequential_loop-length (suc n) i = ap suc (sequential_loop-length n (i + 1))

-- There is a call for each connection.
pub sequential-length : (connections : ℕ) → length (sequential connections) ≡ connections
unfolding sequential
sequential-length connections = sequential_loop-length connections 0
