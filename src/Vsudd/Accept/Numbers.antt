-- ===== src/Vsudd/Accept/Numbers.antt =====
-- The numbers of the connections.
use virtsock.Common.{
  count, count-split, ℕ, zero, suc, ◌+◌, ◌≡◌, ◌≤◌, ◌<◌, refl, sym, ap, ◌∙◌, subst, Bool, true,
  false, Option, some, List, [], ◌∷◌, ◌++◌, length, All, arith,
}
use virtsock.Vsudd.Accept.{
  Pc, at_top, accepting, accepted, stopped, Shared, act, State, Step, step, Reach, here, next,
  loops_at_top, start,
}

-- A loop that has counted for a connection that it has not handed over.
abbrev pub waiting : Pc → ℕ
waiting at_top = 0
waiting _ = 1

abbrev pub count_waiting : List Pc → ℕ
count_waiting = count waiting

-- Every number given out is one of 1 to `connid`, which has counted the connections handed over and
-- the loops that wait or have stopped.
pub record IsCounted (s : Shared) (waiting : ℕ) : Type 0 where
  pub counts : s.connid ≡ length s.handled + waiting
  pub within : All (λ k. (0 < k) × (k ≤ s.connid)) s.handled

All-le :
    (m n : ℕ) (ks : List ℕ)
    → m ≤ n
    → All (λ k. (0 < k) × (k ≤ m)) ks
    → All (λ k. (0 < k) × (k ≤ n)) ks
All-le m n [] le all = tt
All-le m n (k ∷ ks) le ((pos, below), all) = ((pos, omega arith), All-le m n ks le all)

moved :
    {t s' : Shared} {q pc' : Pc} (P : Shared → Pc → Type 0)
    → ◌≡◌ {A = Option (Shared × Pc)} (some (t, q)) (some (s', pc'))
    → P t q
    → P s' pc'
moved {t} {s'} {q} {pc'} P e v =
    let shared : t ≡ s' = cc in
    let at : q ≡ pc' = cc in subst (λ x. P s' x) at (subst (λ x. P x q) shared v)

act-IsCounted :
    (ok : Bool) (s s' : Shared) (pc pc' : Pc) (w : ℕ)
    → act ok s pc ≡ some (s', pc')
    → IsCounted s (waiting pc + w)
    → IsCounted s' (waiting pc' + w)
unfolding act
act-IsCounted ok s s' at_top pc' w e v =
    moved (λ x q. IsCounted x (waiting q + w)) e
      (record {
        counts = omega (arith, v.counts);
        within = All-le s.connid (s.connid + 1) s.handled (omega arith) v.within;
      })
act-IsCounted true s s' accepting pc' w e v = moved (λ x q. IsCounted x (waiting q + w)) e v
act-IsCounted false s s' accepting pc' w e v = moved (λ x q. IsCounted x (waiting q + w)) e v
act-IsCounted ok s s' accepted pc' w e v =
    moved (λ x q. IsCounted x (waiting q + w)) e
      (record {
        counts = omega (arith, v.counts);
        within = ((omega (arith, v.counts), omega arith), v.within);
      })
act-IsCounted ok s s' stopped pc' w e v = cc

Step-IsCounted :
    {s t : State}
    → Step s t
    → IsCounted s.shared (count_waiting s.loops)
    → IsCounted t.shared (count_waiting t.loops)
Step-IsCounted {s} {t} (step pre post pc pc' ok shared' at acts to) v =
    let before : IsCounted s.shared (waiting pc + (count_waiting pre + count_waiting post)) =
      subst (IsCounted s.shared) (ap count_waiting at ∙ count-split waiting pre post pc) v in
    let after = act-IsCounted ok s.shared shared' pc pc' _ acts before in
    subst (λ u. IsCounted u.shared (count_waiting u.loops)) (sym to)
      (subst (IsCounted shared') (sym (count-split waiting pre post pc')) after)

start-count : (n : ℕ) → count_waiting (loops_at_top n) ≡ 0
start-count zero = refl
start-count (suc n) = omega (arith, start-count n)

-- With any number of forwards and in any order of their loops, every number given to `handleOneIn`
-- is one of 1 to `connid`, and `connid` has counted each connection handed over once and each loop
-- that waits for one or has stopped once.
Reach-IsCounted :
    (n : ℕ) {t : State} → Reach (start n) t → IsCounted t.shared (count_waiting t.loops)
Reach-IsCounted n here = record { counts = omega (arith, start-count n); within = tt }
Reach-IsCounted n (next r st) = Step-IsCounted st (Reach-IsCounted n r)

abbrev pub count_down : ℕ → List ℕ
count_down zero = []
count_down (suc n) = suc n ∷ count_down n

-- The state of a loop that runs alone.
abbrev pub IsAlone : Shared → Pc → Type 0
IsAlone s pc =
    (s.connid ≡ length s.handled + waiting pc) × (s.handled ≡ count_down (length s.handled))

act-IsAlone :
    (ok : Bool) (s s' : Shared) (pc pc' : Pc)
    → act ok s pc ≡ some (s', pc')
    → IsAlone s pc
    → IsAlone s' pc'
unfolding act
act-IsAlone ok s s' at_top pc' e v = moved IsAlone e (omega (arith, v.0), v.1)
act-IsAlone true s s' accepting pc' e v = moved IsAlone e v
act-IsAlone false s s' accepting pc' e v = moved IsAlone e v
act-IsAlone ok s s' accepted pc' e v =
    let number : s.connid ≡ suc (length s.handled) = omega (arith, v.0) in
    moved IsAlone e
      (omega (arith, v.0), ap (λ k. k ∷ s.handled) number ∙ ap (◌∷◌ (suc (length s.handled))) v.1)
act-IsAlone ok s s' stopped pc' e v = cc

only :
    (pre post : List Pc) {pc q : Pc}
    → q ∷ [] ≡ pre ++ pc ∷ post
    → (pre ≡ []) × (post ≡ []) × (q ≡ pc)
only [] [] e = (refl, refl, cc)
only [] (x ∷ post) e = cc
only (x ∷ []) post e = cc
only (x ∷ y ∷ pre) post e = cc

-- Only one loop, and it runs alone.
abbrev pub IsSingle : State → Type 0
IsSingle s = (pc : Pc) × (s.loops ≡ pc ∷ []) × IsAlone s.shared pc

Step-IsSingle : {s t : State} → Step s t → IsSingle s → IsSingle t
Step-IsSingle {s} (step pre post pc pc' ok shared' at acts to) (q, one, v) =
    let (no_pre, no_post, same) = only pre post (sym one ∙ at) in
    (
      pc',
      ap (λ x. x.loops) to ∙ rw (no_pre, no_post) refl,
      subst (λ x. IsAlone x pc') (sym (ap (λ x. x.shared) to))
          (act-IsAlone ok s.shared shared' pc pc' acts (subst (IsAlone s.shared) same v)),
    )

Reach-IsSingle : {t : State} → Reach (start 1) t → IsSingle t
Reach-IsSingle here = (at_top, refl, (refl, refl))
Reach-IsSingle (next r st) = Step-IsSingle st (Reach-IsSingle r)

-- With one forward, the connections handed over are numbered 1, 2, 3 and so on.
Reach-count_down :
    {t : State} → Reach (start 1) t → t.shared.handled ≡ count_down (length t.shared.handled)
Reach-count_down r = (Reach-IsSingle r).2.1
