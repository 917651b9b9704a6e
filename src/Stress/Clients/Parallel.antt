-- ===== src/Stress/Clients/Parallel.antt =====
-- In parallel, each number from 1 up to `connections - 1` is used once, and 0 is not.
use virtsock.Common.{
  ltb, count, count-split, ℕ, zero, suc, ◌+◌, ◌^◌, ◌≤◌, ◌<◌, ◌≡◌, refl, sym, ap, ◌∙◌, subst, List,
  [], ◌∷◌, ◌++◌, arith, length, Bool-cases, inl, inr,
}
use virtsock.Stress.Clients.{
  Worker, taking, holding, running, finished, State, Step, step, Reach, here, next, spawn, start,
}
use virtsock.Stress.Clients.Numbers.{is, held, past, within, Inv, Inv-eq, act-Inv}

length-split :
    (pre post : List Worker) (w : Worker)
    → length (pre ++ w ∷ post) ≡ suc (length pre + length post)
length-split [] post w = omega arith
length-split (x ∷ pre) post w = omega (arith, length-split pre post w)

past-le : (connections : ℕ) (ws : List Worker) → count (past connections) ws ≤ length ws
past-le connections [] = omega arith
past-le connections (taking ∷ ws) = omega (arith, past-le connections ws)
past-le connections (running c ∷ ws) = omega (arith, past-le connections ws)
past-le connections (finished ∷ ws) = omega (arith, past-le connections ws)
past-le connections (holding c ∷ ws) = ground (arith, past-le connections ws)

-- The invariant of a state of `n` workers.
abbrev Holds : ℕ → ℕ → State → Type 0
Holds connections n s =
    (length s.workers ≡ n)
    × Inv connections s.shared (λ x. count (held x) s.workers) (count (past connections) s.workers)

Step-Holds :
    {connections n : ℕ} {s t : State}
    → connections + n < 2 ^ 31
    → Step connections s t
    → Holds connections n s
    → Holds connections n t
Step-Holds {connections} {n} {s} {t} small (step pre post w w' shared' at acts to) (size, v) =
    let over = count (past connections) pre + count (past connections) post in
    let holds = λ (x : ℕ). count (held x) pre + count (held x) post in
    let sizes : suc (length pre + length post) ≡ n =
      sym (length-split pre post w) ∙ sym (ap length at) ∙ size in
    let room : connections + over + 1 < 2 ^ 31 =
      omega (arith, past-le connections pre, past-le connections post) in
    let before : Inv connections s.shared (λ x. held x w + holds x) (past connections w + over) =
      Inv-eq s.shared (λ x. ap (count (held x)) at ∙ count-split (held x) pre post w)
        (ap (count (past connections)) at ∙ count-split (past connections) pre post w) v in
    subst (Holds connections n) (sym to) (
      length-split pre post w' ∙ sizes,
      Inv-eq shared' (λ x. sym (count-split (held x) pre post w'))
          (sym (count-split (past connections) pre post w'))
          (act-Inv connections s.shared shared' w w' holds over room acts before),
    )

Reach-Holds :
    {connections n : ℕ} {s t : State}
    → connections + n < 2 ^ 31
    → Holds connections n s
    → Reach connections s t
    → Holds connections n t
Reach-Holds small v here = v
Reach-Holds small v (next r st) = Step-Holds small st (Reach-Holds small v r)

spawned : (k : ℕ) → length (spawn k) ≡ k
unfolding spawn
spawned zero = refl
spawned (suc k) = ap suc (spawned k)

nothing_held : (x k : ℕ) → count (held x) (spawn k) ≡ 0
unfolding spawn
nothing_held x zero = refl
nothing_held x (suc k) = omega (arith, nothing_held x k)

none_past : (connections k : ℕ) → count (past connections) (spawn k) ≡ 0
unfolding spawn
none_past connections zero = refl
none_past connections (suc k) = omega (arith, none_past connections k)

start-Holds : (connections parallel : ℕ) → Holds connections parallel (start parallel)
start-Holds connections parallel = (
  spawned parallel,
  record {
    below = λ x lt. ground (arith, nothing_held x parallel);
    above = λ x ge. refl;
    room = omega arith;
    reached = λ pos. absurd (omega (arith, none_past connections parallel));
    positive = λ x large. nothing_held x parallel;
  },
)

abbrev pub AreDone : List Worker → Type 0
AreDone [] = Unit
AreDone (finished ∷ ws) = AreDone ws
AreDone (_ ∷ ws) = ⊥

AreDone-held : (x : ℕ) (ws : List Worker) → AreDone ws → count (held x) ws ≡ 0
AreDone-held x [] h = refl
AreDone-held x (finished ∷ ws) h = omega (arith, AreDone-held x ws h)
AreDone-held x (_ ∷ ws) h = absurd (ground arith)

AreDone-past :
    (connections : ℕ) (ws : List Worker) → AreDone ws → count (past connections) ws ≡ length ws
AreDone-past connections [] h = refl
AreDone-past connections (finished ∷ ws) h = omega (arith, AreDone-past connections ws h)
AreDone-past connections (_ ∷ ws) h = absurd (ground arith)

-- However the workers of `parClient` interleave, and however long they sleep, no number is at any
-- moment started twice, nor 0 or one from `connections` on; and when the last worker has returned,
-- each number from 1 to `connections - 1` has been started exactly once, in whatever order. The
-- counter does not wrap if there are fewer than 2 ^ 31 connections and workers together.
pub Reach-started :
    (connections parallel x : ℕ) (t : State)
    → connections + parallel < 2 ^ 31
    → 0 < parallel
    → Reach connections (start parallel) t
    → (count (is x) t.shared.started ≤ within connections x)
      × (AreDone t.workers → count (is x) t.shared.started ≡ within connections x)
Reach-started connections parallel x t small pos r =
    let (size, v) = Reach-Holds small (start-Holds connections parallel) r in
    elim (Bool-cases (ltb x connections)) [
      | inr ge ↦ (ground (arith, v.above x), λ h. ground (arith, v.above x))
      | inl lt ↦ (
        ground (arith, v.below x),
        λ h.
            let all : connections ≤ t.shared.conn_counter =
              v.reached (omega (arith, AreDone-past connections t.workers h, size)) in
            ground (arith, v.below x, AreDone-held x t.workers h),
      )
    ]
