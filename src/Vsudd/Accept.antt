-- ===== src/Vsudd/Accept.antt =====
-- The accept loops of cmd/vsudd/main.go, one goroutine for each forward. They share `connid`, which
-- `main` declares outside of its loop; `connid++` counts as one action.
pub mod Numbers
use virtsock.Common.{
  ℕ, zero, suc, ◌+◌, ◌≡◌, Bool, true, false, Option, none, some, List, [], ◌∷◌, ◌++◌,
}

-- Where a loop is: about to count, waiting in `Accept`, about to hand its connection over to
-- `handleOneIn`, or returned.
pub data Pc : Type 0 where
  at_top accepting accepted stopped : Pc

-- `connid`, and the numbers given to `handleOneIn`, the latest first.
pub record Shared : Type 0 where
  pub connid : ℕ
  pub handled : List ℕ

-- One action of a loop; the flag is whether `Accept` returns a connection.
unfoldable pub act : Bool → Shared → Pc → Option (Shared × Pc)
act ok s at_top = some (record s { connid = s.connid + 1 }, accepting)
act true s accepting = some (s, accepted)
act false s accepting = some (s, stopped)
act ok s accepted = some (record s { handled = s.connid ∷ s.handled }, at_top)
act ok s stopped = none

pub record State : Type 0 where
  pub shared : Shared
  pub loops : List Pc

-- Some loop makes its next action.
pub data Step (s t : State) : Type 0 where
  step :
      (pre post : List Pc) (pc pc' : Pc) (ok : Bool) (shared' : Shared)
      → s.loops ≡ pre ++ pc ∷ post
      → act ok s.shared pc ≡ some (shared', pc')
      → t ≡ record { shared = shared'; loops = pre ++ pc' ∷ post }
      → Step s t

pub data Reach (s : State) : State → Type 0 where
  here : Reach s s
  next : {t u : State} → Reach s t → Step t u → Reach s u

-- `n` forwards, before any connection.
abbrev pub loops_at_top : ℕ → List Pc
loops_at_top zero = []
loops_at_top (suc n) = at_top ∷ loops_at_top n

abbrev pub start : ℕ → State
start n = record { shared = record { connid = 0; handled = [] }; loops = loops_at_top n }
