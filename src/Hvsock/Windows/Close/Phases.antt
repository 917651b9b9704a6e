-- ===== src/Hvsock/Windows/Close/Phases.antt =====
-- The contract of closing, as a small machine of its own, and that the threads keep to it: the
-- detailed steps with their lock, flag and wait group refine its events.
use virtsock.Common.{
  ℕ, zero, suc, ◌+◌, ◌-◌, ◌≤◌, ◌<◌, ◌≡◌, refl, sym, ap, ◌∙◌, subst, Bool, true, false, Option, none,
  some, List, [], ◌∷◌, arith,
}
use virtsock.Hvsock.Windows.Close.{
  Pc, io_start, io_add, io_complete, close_locked, close_free, Shared, act, State, Step, step,
  Reach, here, next, fresh, AreStarting,
}
use virtsock.Hvsock.Windows.Close.Invariant.{
  reading, writing, active, winning, freeing as freeing_at, adding, bit, Inv, Holds, Around,
  Around-Holds, count_mono, freeing-le, Reach-Holds, fresh-Holds,
}

-- A connection: open, closing and waiting for the operations in progress, or freed.
pub data Phase : Type 0 where
  live draining : ℕ → Phase
  freed : Phase

-- What its users see of it: an operation is let in or has ended, a call of `close` has come, the
-- handle is given back, or nothing.
pub data Event : Type 0 where
  let_in ended called freeing silent : Event

-- The machine. An operation is let in only while it is open; one that ends was in progress; a first
-- `close` ends the open phase; and it is freed once, with none in progress.
unfoldable pub after : Event → Phase → Option Phase
after let_in (live n) = some (live (n + 1))
after ended (live (suc n)) = some (live n)
after ended (draining (suc n)) = some (draining n)
after called (live n) = some (draining n)
after called p = some p
after freeing (draining zero) = some freed
after silent p = some p
after _ p = none

abbrev pub then_after : Event → Option Phase → Option Phase
then_after e none = none
then_after e (some p) = after e p

-- A run of it from a connection that has just been made, the latest event first.
abbrev pub run : List Event → Option Phase
run [] = some (live 0)
run (e ∷ es) = then_after e (run es)

-- What a step of a thread shows.
abbrev pub event_at : Pc → Event
event_at io_add = let_in
event_at io_complete = ended
event_at close_locked = called
event_at close_free = freeing
event_at _ = silent

abbrev pub event_of : {s t : State} → Step s t → Event
event_of (step pre post pc pc' flag shared' at acts to) = event_at pc

abbrev pub events : {s t : State} → Reach s t → List Event
events here = []
events (next r st) = event_of st ∷ events r

abbrev pub phase : Bool → ℕ → ℕ → Phase
phase closing wg (suc k) = freed
phase true wg zero = draining wg
phase false wg zero = live wg

-- What the shared fields show of the phase.
abbrev pub view : Shared → Phase
view s = phase s.closing s.wg s.closes

view_eq :
    (s t : Shared) → s.closing ≡ t.closing → s.wg ≡ t.wg → s.closes ≡ t.closes → view s ≡ view t
view_eq s t e f g =
    ap (λ c. phase c s.wg s.closes) e
    ∙ ap (λ n. phase t.closing n s.closes) f
    ∙ ap (phase t.closing t.wg) g

Shows : Event → Shared → Shared → Type 0
Shows e s t = after e (view s) ≡ some (view t)

let_in_phase :
    (c : Bool) (g k : ℕ) → c ≡ false → k ≡ 0 → after let_in (phase c g k) ≡ some (phase c (g + 1) k)
unfolding after
let_in_phase false g zero c k = refl
let_in_phase true g k c z = cc
let_in_phase false g (suc k) c z = absurd (omega arith)

ended_phase :
    (c : Bool) (g k : ℕ) → 0 < g → k ≡ 0 → after ended (phase c g k) ≡ some (phase c (g - 1) k)
unfolding after
ended_phase c zero k pos z = absurd (omega arith)
ended_phase true (suc g) zero pos z = ap (λ n. some (draining n)) (omega arith)
ended_phase false (suc g) zero pos z = ap (λ n. some (live n)) (omega arith)
ended_phase c (suc g) (suc k) pos z = absurd (omega arith)

called_phase : (c : Bool) (g k : ℕ) → k ≤ bit c → after called (phase c g k) ≡ some (phase true g k)
unfolding after
called_phase true g zero h = refl
called_phase true g (suc k) h = refl
called_phase false g zero h = refl
called_phase false g (suc k) h = absurd (omega arith)

freeing_phase :
    (c : Bool) (g k : ℕ)
    → c ≡ true
    → g ≡ 0
    → k ≡ 0
    → after freeing (phase c g k) ≡ some (phase c g (k + 1))
unfolding after
freeing_phase true zero zero c g k = refl
freeing_phase false g k c _ z = cc
freeing_phase true (suc g) k c z _ = absurd (omega arith)
freeing_phase true g (suc k) c _ z = absurd (omega arith)

silent_phase : (p q : Phase) → p ≡ q → after silent p ≡ some q
unfolding after
silent_phase p q e = ap some e

act-Shows :
    (flag : Bool) (s s' : Shared) (pc pc' : Pc) (r w a n f d : ℕ)
    → act flag s pc ≡ some (s', pc')
    → f ≤ n
    → Inv s
        (reading pc + r)
        (writing pc + w)
        (active pc + a)
        (winning pc + n)
        (freeing_at pc + f)
        (adding pc + d)
    → Shows (event_at pc) s s'
unfolding act Shows
act-Shows flag s s' io_add pc' r w a n f d e fn v =
    let c : s.closing ≡ false = v.adds_before_closing (omega arith) in
    let k : s.closes ≡ 0 = ground (arith, v.winners_counted) in
    let_in_phase s.closing s.wg s.closes c k
    ∙ ap some (view_eq (record s { wg = s.wg + 1 }) s' (cc) (cc) (cc))
act-Shows flag s s' io_complete pc' r w a n f d e fn v =
    let k : s.closes ≡ 0 = ground (arith, v.idle) in
    ended_phase s.closing s.wg s.closes (omega (arith, v.wg_counted)) k
    ∙ ap some (view_eq (record s { wg = s.wg - 1 }) s' (cc) (cc) (cc))
act-Shows flag s s' close_locked pc' r w a n f d e fn v =
    called_phase s.closing s.wg s.closes (omega (arith, v.winners_counted))
    ∙ ap some (view_eq (record s { closing = true }) s' (cc) (cc) (cc))
act-Shows flag s s' close_free pc' r w a n f d e fn v =
    let g : s.wg ≡ 0 = ground (arith, v.idle) in
    let c : s.closing ≡ true = ground (arith, v.winners_counted) in
    let k : s.closes ≡ 0 = ground (arith, v.winners_counted) in
    freeing_phase s.closing s.wg s.closes c g k
    ∙ ap some (view_eq (record s { closes = s.closes + 1 }) s' (cc) (cc) (cc))
act-Shows flag s s' io_start pc' r w a n f d e fn v =
    silent_phase (view s) (view s') (view_eq s s' (ground arith) (ground arith) (ground arith))
act-Shows flag s s' _ pc' r w a n f d e fn v =
    silent_phase (view s) (view s') (view_eq s s' (ground arith) (ground arith) (ground arith))

Step-Shows :
    {s t : State} (st : Step s t) → Holds s.shared s.threads → Shows (event_of st) s.shared t.shared
unfolding Shows
Step-Shows {s} {t} (step pre post pc pc' flag shared' at acts to) v =
    let around : Around s.shared pre pc post =
      subst (λ X. X) (Around-Holds s.shared pre post pc) (subst (Holds s.shared) at v) in
    let fn = count_mono freeing_at winning freeing-le in
    subst (λ u. Shows (event_at pc) s.shared u.shared) (sym to)
      (act-Shows flag s.shared shared' pc pc' _ _ _ _ _ _ acts (omega (arith, fn pre, fn post))
        around)

-- Whatever threads read, write and close a connection, from when it is made and in every order of
-- their steps: the small machine accepts what they show, step by step, and is then in the phase that
-- the fields of the connection show. So an operation is let in only before the first `close`, every
-- operation that ends was in progress, and the handle is given back once, when none is in progress,
-- after which nothing is let in and nothing ends.
pub Reach-run :
    (ts : List Pc) {t : State}
    → AreStarting ts
    → (r : Reach (record { shared = fresh; threads = ts }) t)
    → run (events r) ≡ some (view t.shared)
unfolding Shows
Reach-run ts h here = refl
Reach-run ts h (next r st) =
    ap (then_after (event_of st)) (Reach-run ts h r)
    ∙ Step-Shows st (Reach-Holds r (fresh-Holds ts h))
