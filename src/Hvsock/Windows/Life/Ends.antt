-- ===== src/Hvsock/Windows/Life/Ends.antt =====
-- Closing comes to an end by itself: it cancels everything that the system works on, and every run
-- is bounded.
use virtsock.Common.{
  ℕ, ◌+◌, ◌≡◌, ◌<◌, refl, ap, ◌∙◌, subst, Bool, true, false, ◌⊎◌, inl, inr, some, List, [], ◌∷◌,
  ◌++◌, map, arith, At, At-cons, Bool-cases, ltb, ◌==◌,
}
use virtsock.Hvsock.Windows.Life.{
  Pc, idle, ready, issued, cancelling, selecting, expired, draining, finishing, returned, Packet,
  nothing, in_port, with_processor, in_flight, Operation, Closer, not_come, about_to_cancel,
  waiting, closed, is_closing, cancel, cancel_operation, Action, prepare, over_at_once, look,
  cancel_own, complete, dequeue, send, done, act, counted, needs_peer, wg, State, Step, operate,
  mark, cancel_all, free, Reach, fresh,
}
use virtsock.Hvsock.Windows.Life.Sound.{
  has_cancelled, Fits, AllFit, held, count_held, bit, Sound, Reach-Sound,
}

-- How much an operation, and the closing thread, may still do.
abbrev pub steps_of_pc : Pc → ℕ
steps_of_pc idle = 11
steps_of_pc ready = 10
steps_of_pc issued = 6
steps_of_pc cancelling = 5
steps_of_pc selecting = 4
steps_of_pc expired = 3
steps_of_pc draining = 2
steps_of_pc finishing = 1
steps_of_pc returned = 0

abbrev pub steps_of_packet : Packet → ℕ
steps_of_packet (in_flight b) = 3
steps_of_packet in_port = 2
steps_of_packet with_processor = 1
steps_of_packet _ = 0

abbrev pub steps_of : List Operation → ℕ
steps_of [] = 0
steps_of (o ∷ os) = (steps_of_pc o.pc + steps_of_packet o.packet) + steps_of os

abbrev pub steps_of_closer : Closer → ℕ
steps_of_closer not_come = 3
steps_of_closer about_to_cancel = 2
steps_of_closer waiting = 1
steps_of_closer closed = 0

abbrev pub steps_left : State → ℕ
steps_left s = steps_of_closer s.closer + steps_of s.operations

act-steps :
    (a : Action) (closing busy busy' : Bool) (pc : Pc) (p : Packet) (o' : Operation)
    → act a closing busy pc p ≡ some (busy', o')
    → steps_of_pc o'.pc + steps_of_packet o'.packet < steps_of_pc pc + steps_of_packet p
unfolding act
act-steps prepare closing busy busy' idle p o' e = ground arith
act-steps _ closing busy busy' pc p o' e = ground arith

steps_of-split :
    (pre post : List Operation) (o : Operation)
    → steps_of (pre ++ o ∷ post)
      ≡ (steps_of_pc o.pc + steps_of_packet o.packet) + (steps_of pre + steps_of post)
steps_of-split [] post o = omega arith
steps_of-split (x ∷ pre) post o = omega (arith, steps_of-split pre post o)

steps_of-cancelled : (os : List Operation) → steps_of (map cancel_operation os) ≡ steps_of os
steps_of-cancelled [] = refl
steps_of-cancelled (o ∷ os) = omega (arith, steps_of-cancelled os, same o.packet)
  where
    same : (p : Packet) → steps_of_packet (cancel p) ≡ steps_of_packet p
    same (in_flight b) = refl
    same _ = refl

-- Each step, of the peer too, uses one up.
pub Step-steps_left : {s t : State} {b : Bool} → Step s t b → steps_left t < steps_left s
Step-steps_left {s} {t} (operate pre post o o' a busy' at acts to) = omega (
  arith,
  steps_of-split pre post o,
  steps_of-split pre post o',
  ap steps_of at,
  ap steps_left to,
  act-steps a (is_closing s.closer) s.busy busy' o.pc o.packet o' acts,
)
Step-steps_left {s} (mark at to) = omega (arith, ap steps_left to, ap steps_of_closer at)
Step-steps_left {s} (cancel_all at to) =
    omega (arith, ap steps_left to, ap steps_of_closer at, steps_of-cancelled s.operations)
Step-steps_left {s} (free at over to) = omega (arith, ap steps_left to, ap steps_of_closer at)

-- An operation can go on without the peer.
abbrev pub CanGo : Bool → Operation → Type 0
CanGo busy o =
    (a : Action) × (busy' : Bool) × (o' : Operation) × (act a true busy o.pc o.packet
      ≡ some (busy', o'))
    × (needs_peer a o.packet ≡ false)

-- One that is counted can, unless its packet waits for the processor.
counted-CanGo :
    (c : Closer) (busy : Bool) (pc : Pc) (p : Packet)
    → Fits c pc p
    → has_cancelled c ≡ true
    → 0 < counted pc
    → CanGo busy (record { pc = pc; packet = p }) ⊎ ((p ≡ in_port) × (busy ≡ true))
unfolding act
counted-CanGo c busy ready nothing fits is pos = inl (over_at_once, _, _, refl, refl)
counted-CanGo c busy issued p fits is pos = inl (look, _, _, refl, refl)
counted-CanGo c busy cancelling p fits is pos = inl (cancel_own, _, _, refl, refl)
counted-CanGo c busy expired p fits is pos = inl (cancel_own, _, _, refl, refl)
counted-CanGo c busy finishing p fits is pos = inl (done, _, _, refl, refl)
counted-CanGo c busy selecting with_processor fits is pos = inl (send, _, _, refl, refl)
counted-CanGo c busy draining with_processor fits is pos = inl (send, _, _, refl, refl)
counted-CanGo c true selecting in_port fits is pos = inr (refl, refl)
counted-CanGo c false selecting in_port fits is pos = inl (dequeue, _, _, refl, refl)
counted-CanGo c true draining in_port fits is pos = inr (refl, refl)
counted-CanGo c false draining in_port fits is pos = inl (dequeue, _, _, refl, refl)
counted-CanGo c busy selecting (in_flight true) fits is pos = inl (complete, _, _, refl, refl)
counted-CanGo c busy draining (in_flight true) fits is pos = inl (complete, _, _, refl, refl)
counted-CanGo c busy selecting (in_flight false) fits is pos = cc (fits is)
counted-CanGo c busy draining (in_flight false) fits is pos = cc (fits refl)
counted-CanGo c busy pc p fits is pos = absurd (ground arith)

held-CanGo :
    (c : Closer) (busy : Bool) (pc : Pc) (p : Packet)
    → Fits c pc p
    → 0 < held p
    → CanGo busy (record { pc = pc; packet = p })
unfolding act
held-CanGo c busy issued with_processor fits pos = (look, _, _, refl, refl)
held-CanGo c busy cancelling with_processor fits pos = (cancel_own, _, _, refl, refl)
held-CanGo c busy expired with_processor fits pos = (cancel_own, _, _, refl, refl)
held-CanGo c busy selecting with_processor fits pos = (send, _, _, refl, refl)
held-CanGo c busy draining with_processor fits pos = (send, _, _, refl, refl)
held-CanGo c busy pc p fits pos = absurd (ground arith)

-- A positive count names an operation, which fits.
find :
    (c : Closer) (f : Operation → ℕ) (total : List Operation → ℕ) (os : List Operation)
    → total [] ≡ 0
    → ((o : Operation) (os : List Operation) → total (o ∷ os) ≡ f o + total os)
    → AllFit c os
    → 0 < total os
    → At (λ o. (0 < f o) × Fits c o.pc o.packet) os
find c f total [] none_left more all pos = absurd (omega (arith, none_left))
find c f total (o ∷ os) none_left more (fits, all) pos = elim (Bool-cases (ltb 0 (f o))) [
  | inl found ↦ record {
    pre = [];
    post = os;
    item = o;
    splits = refl;
    holds = (ground arith, fits);
  }
  | inr further ↦ At-cons o (find c f total os none_left more all (ground (arith, more o os)))
]

-- An operation that can go on makes a step of the connection.
go :
    (s : State) {P : Operation → Type 0}
    → is_closing s.closer ≡ true
    → (p : At P s.operations) → CanGo s.busy p.item
    → (t : State) × Step s t false
go s is p (a, busy', o', acts, alone) =
    let t = record s { busy = busy'; operations = p.pre ++ o' ∷ p.post } in
    (
      t,
      subst (Step s t) alone (
          operate p.pre p.post p.item o' a busy' p.splits
            (ap (λ b. act a b s.busy p.item.pc p.item.packet) is ∙ acts) refl),
    )

go_held :
    (s : State)
    → Sound s
    → is_closing s.closer ≡ true
    → s.busy ≡ true
    → (t : State) × Step s t false
go_held s v is busy =
    let p =
      find s.closer (λ o. held o.packet) count_held s.operations refl (λ o os. refl) v.fits
        (omega (arith, v.held_counted, ap bit busy)) in
    go s is p (held-CanGo s.closer s.busy p.item.pc p.item.packet p.holds.1 p.holds.0)

go_counted :
    (s : State)
    → Sound s
    → has_cancelled s.closer ≡ true
    → is_closing s.closer ≡ true
    → 0 < wg s.operations
    → (t : State) × Step s t false
go_counted s v cancelled is pos =
    let p = find s.closer (λ o. counted o.pc) wg s.operations refl (λ o os. refl) v.fits pos in
    elim (counted-CanGo s.closer s.busy p.item.pc p.item.packet p.holds.1 cancelled p.holds.0) [
      | inl can ↦ go s is p can
      | inr (waits, busy) ↦ go_held s v is busy
    ]

go_on :
    (s : State) (c : Closer)
    → s.closer ≡ c
    → Sound s
    → is_closing c ≡ true
    → (c ≡ closed) ⊎ ((t : State) × Step s t false)
go_on s not_come at v is = cc
go_on s about_to_cancel at v is = inr (_, cancel_all at refl)
go_on s closed at v is = inl refl
go_on s waiting at v is = elim (Bool-cases (wg s.operations == 0)) [
  | inl over ↦ inr (_, free at (ground arith) refl)
  | inr busy ↦ inr (go_counted s v (ap has_cancelled at) (ap is_closing at) (ground arith))
]

-- Once `close` has set its flag, it comes to an end whatever the other end of the connection does:
-- until the handle has been closed, some step is possible that does not need the peer, and every
-- step, also one of the peer, uses up one of a finite number. This is over any number of operations,
-- with or without deadlines, in any order of their steps; the system completes an operation that it
-- has been asked to cancel.
pub Reach-closes :
    (n : ℕ) {s : State}
    → Reach (fresh n) s
    → is_closing s.closer ≡ true
    → ((s.closer ≡ closed) ⊎ ((t : State) × Step s t false))
      × ((t : State) (b : Bool) → Step s t b → steps_left t < steps_left s)
Reach-closes n {s} r is = (go_on s s.closer refl (Reach-Sound n r) is, λ t b st. Step-steps_left st)
