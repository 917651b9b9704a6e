-- ===== src/Hvsock/Windows/Deadline/Meaning.antt =====
-- What a deadline handler means when `set` has returned, and how far each action of `set` and of the
-- timer brings it there.
use virtsock.Common.{ℕ, ◌+◌, ◌≤◌, ◌<◌, Bool, true, false, Option, none, some, ◌≡◌, refl, arith}
use virtsock.Hvsock.Windows.Deadline.{
  Pc, outside, at_stop, at_wait, at_clear, at_select, at_deadline, at_mark, at_close, Callback,
  quiet, armed, firing, closing, State, Deadline, zero, future, past, set_act, timer_act,
}
use virtsock.Hvsock.Windows.Deadline.Invariant.{Holds, state}

-- The flag and the channel of a handler whose deadline is set: none, one that has passed, or one
-- that its timer is still to announce.
abbrev pub Meaning : Deadline → Callback → Bool → Bool → Type 0
Meaning zero quiet timedout closed = (timedout ≡ false) × (closed ≡ false)
Meaning zero _ timedout closed = ⊥
Meaning past quiet timedout closed = (timedout ≡ true) × (closed ≡ true)
Meaning past _ timedout closed = ⊥
Meaning future quiet timedout closed = (timedout ≡ true) × (closed ≡ true)
Meaning future closing timedout closed = (timedout ≡ true) × (closed ≡ false)
Meaning future _ timedout closed = (timedout ≡ false) × (closed ≡ false)

abbrev pub Means : Deadline → State → Type 0
Means d s = (s.panicked ≡ false) × Meaning d s.callback s.timedout s.closed

-- `set` marks the flag itself only for a deadline in the past.
abbrev IsPast : Deadline → Type 0
IsPast past = Unit
IsPast _ = ⊥

abbrev pub Marks : Deadline → Pc → Type 0
Marks d at_mark = IsPast d
Marks d at_close = IsPast d
Marks d _ = Unit

-- What `set` has still to do, at most, before it begins and when it has begun.
abbrev pub begun : Pc → ℕ
begun outside = 0
begun at_stop = 8
begun at_wait = 7
begun at_clear = 6
begun at_select = 5
begun at_deadline = 4
begun at_mark = 2
begun at_close = 1

abbrev pub todo : Pc → ℕ
todo outside = 9
todo pc = begun pc

-- What a timer has still to do.
abbrev pub ticks : Callback → ℕ
ticks armed = 3
ticks firing = 2
ticks closing = 1
ticks quiet = 0

-- Inside `set`, and behind one of its actions.
abbrev pub After : Deadline → Pc → State → Type 0
After d outside t = Meaning d t.callback t.timedout t.closed
After d pc t = Marks d pc

abbrev pub Moves : Deadline → ℕ → Option State → Type 0
Moves d n none = Unit
Moves d n (some t) = After d t.pc t × (begun t.pc + ticks t.callback < n)

pub set_act-Moves :
    (d : Deadline) (pc : Pc) (c : Callback) (r t x p : Bool)
    → Holds (state pc c r t x p)
    → Marks d pc
    → Moves d (todo pc + ticks c) (set_act d (state pc c r t x p))
unfolding set_act
set_act-Moves d outside c true t x p v m = (tt, omega arith)
set_act-Moves d outside c false t x p v m = (tt, omega arith)
set_act-Moves d at_stop armed r t x p v m = (tt, omega arith)
set_act-Moves d at_stop c r t x p v m = (tt, omega arith)
set_act-Moves d at_wait c r t true p v m = (tt, omega arith)
set_act-Moves d at_wait c r t false p v m = tt
set_act-Moves d at_clear c r t x p v m = (tt, omega arith)
set_act-Moves d at_select c r t x p v m = (tt, omega arith)
set_act-Moves zero at_deadline quiet r t x p v m = ((v.1.1, v.1.2), omega arith)
set_act-Moves future at_deadline quiet r t x p v m = ((v.1.1, v.1.2), omega arith)
set_act-Moves past at_deadline c r t x p v m = (tt, omega arith)
set_act-Moves past at_mark c r t x p v m = (tt, omega arith)
set_act-Moves past at_close quiet r t x p v m = ((v.1.1, refl), omega arith)
set_act-Moves d pc c r t x p v m = absurd (ground arith)

-- A timer leaves `set` where it is, and brings no other meaning.
abbrev pub Ticks : Deadline → Pc → Callback → Bool → Bool → Option State → Type 0
Ticks d pc c timedout closed none = Unit
Ticks d pc c timedout closed (some t) =
    (t.pc ≡ pc)
    × (ticks t.callback < ticks c)
    × (Meaning d c timedout closed → Meaning d t.callback t.timedout t.closed)

pub timer_act-Ticks :
    (d : Deadline) (pc : Pc) (c : Callback) (r t x p : Bool)
    → Ticks d pc c t x (timer_act (state pc c r t x p))
unfolding timer_act
timer_act-Ticks d pc quiet r t x p = tt
timer_act-Ticks future pc armed r t x p = (refl, omega arith, λ m. m)
timer_act-Ticks future pc firing r t x p = (refl, omega arith, λ m. (refl, m.1))
timer_act-Ticks future pc closing r t x p = (refl, omega arith, λ m. (m.0, refl))
timer_act-Ticks zero pc armed r t x p = (refl, omega arith, λ m. m)
timer_act-Ticks past pc armed r t x p = (refl, omega arith, λ m. m)
timer_act-Ticks zero pc firing r t x p = (refl, omega arith, λ m. m)
timer_act-Ticks past pc firing r t x p = (refl, omega arith, λ m. m)
timer_act-Ticks zero pc closing r t x p = (refl, omega arith, λ m. absurd m)
timer_act-Ticks past pc closing r t x p = (refl, omega arith, λ m. absurd m)

pub todo_le : (pc : Pc) → todo pc ≤ 9
todo_le outside = omega arith
todo_le at_stop = omega arith
todo_le at_wait = omega arith
todo_le at_clear = omega arith
todo_le at_select = omega arith
todo_le at_deadline = omega arith
todo_le at_mark = omega arith
todo_le at_close = omega arith

pub ticks_le : (c : Callback) → ticks c ≤ 3
ticks_le quiet = omega arith
ticks_le armed = omega arith
ticks_le firing = omega arith
ticks_le closing = omega arith
