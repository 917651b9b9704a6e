-- ===== src/Stress/Clients/Numbers.antt =====
-- What the counter of `parClient` has given out, and to whom.
use virtsock.Common.{
  ==_iff, ◌≢◌, ◌==◌, ◌&&◌, leb, ltb, if◌then◌else◌, count, ℕ, ◌+◌, ◌-◌, ◌%◌, ◌^◌, ◌≤◌, ◌<◌, ◌≡◌,
  refl, subst, true, false, some, arith, Bool-cases, inl, inr,
}
use virtsock.Stress.Clients.{
  Worker, holding, finished, Shared, is_below, take_number, test_number, act,
}

-- How often a number stands in a place, and in the hands of a worker before its test.
abbrev pub is : ℕ → ℕ → ℕ
is x y = if y == x then 1 else 0

abbrev pub held : ℕ → Worker → ℕ
held x (holding c) = is x c
held x _ = 0

-- A worker that has taken a number too many.
abbrev pub past : ℕ → Worker → ℕ
past connections (holding c) = if ltb c connections then 0 else 1
past connections finished = 1
past connections _ = 0

-- The numbers 1 to `n`, and those below `connections` among them.
abbrev pub given : ℕ → ℕ → ℕ
given n x = if leb 1 x && leb x n then 1 else 0

abbrev pub within : ℕ → ℕ → ℕ
within connections x = if leb 1 x && ltb x connections then 1 else 0

-- The counter has given out the numbers up to its own. Of those below `connections` each has been
-- started or is held by one worker, and each number above is one worker's end.
pub record Inv (connections : ℕ) (s : Shared) (holds : ℕ → ℕ) (over : ℕ) : Type 0 where
  pub below : (x : ℕ) → x < connections → count (is x) s.started + holds x ≡ given s.conn_counter x
  pub above : (x : ℕ) → connections ≤ x → count (is x) s.started ≡ 0
  pub room : s.conn_counter ≤ connections - 1 + over
  pub reached : 0 < over → connections ≤ s.conn_counter
  pub positive : (x : ℕ) → 2 ^ 31 ≤ x → holds x ≡ 0

is_self : (x : ℕ) → is x x ≡ 1
is_self x = rw ((==_iff x x).1 refl) refl

-- Different numbers.
is_other : (x y : ℕ) → x ≢ y → is x y ≡ 0
is_other x y ne = ground arith

given-suc : (n x : ℕ) → given (n + 1) x ≡ given n x + is x (n + 1)
given-suc n x = ground arith

take-Inv :
    (connections : ℕ) (s : Shared) (holds : ℕ → ℕ) (over : ℕ)
    → connections + over + 1 < 2 ^ 31
    → Inv connections s holds over
    → Inv connections
        (take_number s).0
        (λ x. held x (take_number s).1 + holds x)
        (past connections (take_number s).1 + over)
take-Inv connections s holds over small v =
    let c = (s.conn_counter + 1) % 2 ^ 32 in
    let next : c ≡ s.conn_counter + 1 = omega (arith, v.room) in
    rw next (record {
      below = λ x lt. omega (arith, v.below x lt, given-suc s.conn_counter x);
      above = v.above;
      room = ground (arith, v.room);
      reached = λ pos. ground (arith, v.reached);
      positive = λ x large.
          omega
            (arith, v.positive x large, is_other x (s.conn_counter + 1) (omega (arith, v.room)));
    })

test-Inv :
    (connections c : ℕ) (s : Shared) (holds : ℕ → ℕ) (over : ℕ)
    → Inv connections s (λ x. is x c + holds x) (past connections (holding c) + over)
    → Inv connections
        (test_number connections c s).0
        (λ x. held x (test_number connections c s).1 + holds x)
        (past connections (test_number connections c s).1 + over)
test-Inv connections c s holds over v =
    let small : c < 2 ^ 31 = elim (Bool-cases (ltb c (2 ^ 31))) [
      | inl lt ↦ ground arith
      | inr ge ↦ absurd (omega (arith, v.positive c (ground arith), is_self c))
    ] in
    elim (Bool-cases (ltb c connections)) [
      | inl lt ↦
          let test : is_below connections c ≡ true = ground arith in
          let idle : past connections (holding c) ≡ 0 = rw lt refl in
          rw test (record {
            below = λ x x_lt. omega (arith, v.below x x_lt);
            above = λ x ge. omega (arith, v.above x ge, is_other x c (ground arith));
            room = omega (arith, v.room);
            reached = λ pos. v.reached (omega arith);
            positive = λ x large. omega (arith, v.positive x large);
          })
      | inr ge ↦
          let test : is_below connections c ≡ false = ground arith in
          let spent : past connections (holding c) ≡ 1 = rw ge refl in
          rw test (record {
            below = λ x x_lt. omega (arith, v.below x x_lt, is_other x c (ground arith));
            above = v.above;
            room = omega (arith, v.room);
            reached = λ pos. v.reached (omega arith);
            positive = λ x large. omega (arith, v.positive x large);
          })
    ]

pub Inv-eq :
    {connections over over' : ℕ} {holds holds' : ℕ → ℕ} (s : Shared)
    → ((x : ℕ) → holds x ≡ holds' x)
    → over ≡ over'
    → Inv connections s holds over
    → Inv connections s holds' over'
Inv-eq s e f v = record {
  below = λ x lt. omega (arith, v.below x lt, e x);
  above = v.above;
  room = omega (arith, v.room);
  reached = λ pos. v.reached (omega arith);
  positive = λ x large. omega (arith, v.positive x large, e x);
}

pub act-Inv :
    (connections : ℕ) (s s' : Shared) (w w' : Worker) (holds : ℕ → ℕ) (over : ℕ)
    → connections + over + 1 < 2 ^ 31
    → act connections s w ≡ some (s', w')
    → Inv connections s (λ x. held x w + holds x) (past connections w + over)
    → Inv connections s' (λ x. held x w' + holds x) (past connections w' + over)
unfolding act
act-Inv connections s s' finished w' holds over small e v = cc
act-Inv connections s s' (holding c) w' holds over small e v =
    let tested : test_number connections c s ≡ (s', w') = cc in
    subst (λ r. Inv connections r.0 (λ x. held x r.1 + holds x) (past connections r.1 + over))
      tested (test-Inv connections c s holds over v)
act-Inv connections s s' _ w' holds over small e v =
    let taken : take_number s ≡ (s', w') = cc in
    let same : Inv connections s holds over = record {
      below = λ x lt. omega (arith, v.below x lt);
      above = v.above;
      room = omega (arith, v.room);
      reached = λ pos. v.reached (omega arith);
      positive = λ x large. omega (arith, v.positive x large);
    } in
    subst (λ r. Inv connections r.0 (λ x. held x r.1 + holds x) (past connections r.1 + over)) taken
      (take-Inv connections s holds over small same)
