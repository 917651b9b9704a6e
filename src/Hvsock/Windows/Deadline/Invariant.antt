-- ===== src/Hvsock/Windows/Deadline/Invariant.antt =====
-- What holds of a deadline handler at every moment.
use virtsock.Common.{
  Bool, true, false, Option, none, some, ◌≡◌, ◌≢◌, refl, sym, ◌∙◌, subst, arith, ◌⊎◌, inl, inr,
}
use virtsock.Hvsock.Windows.Deadline.{
  Pc, outside, at_stop, at_wait, at_clear, at_select, at_deadline, at_mark, at_close, Callback,
  quiet, armed, firing, closing, State, Deadline, zero, future, past, set_act, timer_act, by_set,
  by_timer, Reach, here, next, fresh,
}

-- The flags while no callback is due or running.
abbrev pub Quiet : Pc → Bool → Bool → Bool → Type 0
Quiet outside true timedout closed = (timedout ≡ true) × (closed ≡ true)
Quiet outside false timedout closed = timedout ≡ closed
Quiet at_stop timer timedout closed = (timer ≡ true) × (closed ≡ true)
Quiet at_wait timer timedout closed = (timer ≡ true) × (closed ≡ true)
Quiet at_clear timer timedout closed = Unit
Quiet at_select timer timedout closed = (timer ≡ false) × (timedout ≡ false)
Quiet at_deadline timer timedout closed = (timer ≡ false) × (timedout ≡ false) × (closed ≡ false)
Quiet at_mark timer timedout closed = (timer ≡ false) × (timedout ≡ false) × (closed ≡ false)
Quiet at_close timer timedout closed = (timer ≡ false) × (timedout ≡ true) × (closed ≡ false)

-- The flags while the timer or its callback is to come: `set` is not past the timer's end.
abbrev pub IsBefore : Pc → Type 0
IsBefore outside = Unit
IsBefore at_stop = Unit
IsBefore at_wait = Unit
IsBefore _ = ⊥

abbrev pub Flags : Pc → Callback → Bool → Bool → Bool → Type 0
Flags pc quiet timer timedout closed = Quiet pc timer timedout closed
Flags at_wait armed timer timedout closed = ⊥
Flags pc armed timer timedout closed =
    IsBefore pc × (timer ≡ true) × (timedout ≡ false) × (closed ≡ false)
Flags pc firing timer timedout closed =
    IsBefore pc × (timer ≡ true) × (timedout ≡ false) × (closed ≡ false)
Flags pc closing timer timedout closed =
    IsBefore pc × (timer ≡ true) × (timedout ≡ true) × (closed ≡ false)

abbrev pub Holds : State → Type 0
Holds s = (s.panicked ≡ false) × Flags s.pc s.callback s.timer s.timedout s.closed

abbrev pub AfterHolds : Option State → Type 0
AfterHolds none = Unit
AfterHolds (some t) = Holds t

abbrev pub state : Pc → Callback → Bool → Bool → Bool → Bool → State
state pc callback timer timedout closed panicked = record {
  pc = pc;
  callback = callback;
  timer = timer;
  timedout = timedout;
  closed = closed;
  panicked = panicked;
}

pub set_act-AfterHolds :
    (d : Deadline) (pc : Pc) (c : Callback) (r t x p : Bool)
    → Holds (state pc c r t x p)
    → AfterHolds (set_act d (state pc c r t x p))
unfolding set_act
set_act-AfterHolds d outside quiet true t x p v = (v.0, (refl, v.1.1))
set_act-AfterHolds d outside quiet false t x p v = (v.0, tt)
set_act-AfterHolds d outside armed true t x p v = v
set_act-AfterHolds d outside firing true t x p v = v
set_act-AfterHolds d outside closing true t x p v = v
set_act-AfterHolds d outside _ false t x p v = absurd (ground arith)
set_act-AfterHolds d at_stop quiet r t x p v = v
set_act-AfterHolds d at_stop armed r t x p v = (v.0, tt)
set_act-AfterHolds d at_stop firing r t x p v = v
set_act-AfterHolds d at_stop closing r t x p v = v
set_act-AfterHolds d at_wait quiet r t true p v = (v.0, tt)
set_act-AfterHolds d at_wait quiet r t false p v = tt
set_act-AfterHolds d at_wait armed r t x p v = absurd v.1
set_act-AfterHolds d at_wait _ r t false p v = tt
set_act-AfterHolds d at_wait _ r t true p v = absurd (ground arith)
set_act-AfterHolds d at_clear quiet r t x p v = (v.0, (refl, refl))
set_act-AfterHolds d at_select quiet r t x p v = (v.0, (v.1.0, v.1.1, refl))
set_act-AfterHolds zero at_deadline quiet false t x p v = (v.0, v.1.1 ∙ sym v.1.2)
set_act-AfterHolds future at_deadline quiet r t x p v = (v.0, (tt, refl, v.1.1, v.1.2))
set_act-AfterHolds past at_deadline quiet r t x p v = v
set_act-AfterHolds d at_mark quiet r t x p v = (v.0, (v.1.0, refl, v.1.2))
set_act-AfterHolds d at_close quiet false t false p v = (ground arith, v.1.1)
set_act-AfterHolds d _ _ r t x p v = absurd (ground arith)

pub timer_act-AfterHolds :
    (pc : Pc) (c : Callback) (r t x p : Bool)
    → Holds (state pc c r t x p)
    → AfterHolds (timer_act (state pc c r t x p))
unfolding timer_act
timer_act-AfterHolds pc quiet r t x p v = tt
timer_act-AfterHolds outside armed r t x p v = v
timer_act-AfterHolds at_stop armed r t x p v = v
timer_act-AfterHolds outside firing r t x p v = (v.0, (tt, v.1.1, refl, v.1.3))
timer_act-AfterHolds at_stop firing r t x p v = (v.0, (tt, v.1.1, refl, v.1.3))
timer_act-AfterHolds at_wait firing r t x p v = (v.0, (tt, v.1.1, refl, v.1.3))
timer_act-AfterHolds outside closing true t false p v = (ground arith, (v.1.2, refl))
timer_act-AfterHolds at_stop closing r t false p v = (ground arith, (v.1.1, refl))
timer_act-AfterHolds at_wait closing r t false p v = (ground arith, (v.1.1, refl))
timer_act-AfterHolds _ _ r t x p v = absurd (ground arith)

after : {o : Option State} {t : State} → o ≡ some t → AfterHolds o → Holds t
after e v = subst AfterHolds e v

pub Reach-Holds : {t : State} → Reach fresh t → Holds t
Reach-Holds here = (refl, refl)
Reach-Holds (next {t = s} r (by_set d e)) =
    after e
      (set_act-AfterHolds d s.pc s.callback s.timer s.timedout s.closed s.panicked (Reach-Holds r))
Reach-Holds (next {t = s} r (by_timer e)) =
    after e
      (timer_act-AfterHolds s.pc s.callback s.timer s.timedout s.closed s.panicked (Reach-Holds r))

-- Whatever deadlines are set and whenever timers run, no channel is closed twice, which would panic;
-- and when no `set` is running and no timer is due or running, the flag `timedout` says whether
-- the channel is closed, so that operations already waiting and operations to come see the same.
pub Reach-agrees :
    {t : State}
    → Reach fresh t
    → (t.panicked ≡ false) × (t.pc ≡ outside → t.callback ≡ quiet → t.timedout ≡ t.closed)
Reach-agrees {t} r =
    let v = Reach-Holds r in
    (v.0, λ p c. at_rest t.pc t.callback t.timer t.timedout t.closed v.1 p c)
  where
    at_rest :
        (pc : Pc) (c : Callback) (timer timedout closed : Bool)
        → Flags pc c timer timedout closed
        → pc ≡ outside
        → c ≡ quiet
        → timedout ≡ closed
    at_rest outside quiet true timedout closed f p e = f.0 ∙ sym f.1
    at_rest outside quiet false timedout closed f p e = f
    at_rest _ _ timer timedout closed f p e = absurd (ground arith)

abbrev pub IsSome : Option State → Type 0
IsSome none = ⊥
IsSome (some t) = Unit

-- A `set` that waits for the channel is never left waiting: while it is running, whatever its
-- deadline, it can act itself, or the timer's callback has begun and can act.
abbrev pub GoesOn : Deadline → State → Type 0
GoesOn d s = IsSome (set_act d s) ⊎ (IsSome (timer_act s) × (s.callback ≢ armed))

pub Holds-GoesOn :
    (d : Deadline) (pc : Pc) (c : Callback) (timer timedout closed p : Bool)
    → Holds (state pc c timer timedout closed p)
    → GoesOn d (state pc c timer timedout closed p)
unfolding set_act timer_act
Holds-GoesOn d at_wait c timer timedout true p v = inl tt
Holds-GoesOn d at_wait quiet timer timedout false p v = absurd (ground arith)
Holds-GoesOn d at_wait armed timer timedout false p v = absurd v.1
Holds-GoesOn d at_wait firing timer timedout false p v = inr (tt, λ e. ground arith)
Holds-GoesOn d at_wait closing timer timedout false p v = inr (tt, λ e. ground arith)
Holds-GoesOn d _ c timer timedout closed p v = inl tt
