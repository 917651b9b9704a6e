-- ===== src/Hvsock/Windows/SetDeadline/Sets.antt =====
-- What `SetDeadline` has done when it returns, and that it returns.
use virtsock.Common.{
  ℕ, ◌+◌, ◌≤◌, ◌<◌, Bool, false, Option, none, some, ◌≡◌, sym, ap, ◌∙◌, subst, arith,
}
use virtsock.Hvsock.Windows.Deadline.{Pc, outside, Callback, State, Deadline, set_act, Reach, fresh}
use virtsock.Hvsock.Windows.Deadline.Invariant.{
  Holds, AfterHolds, state, set_act-AfterHolds, timer_act-AfterHolds, Reach-Holds, GoesOn,
  Holds-GoesOn,
}
use virtsock.Hvsock.Windows.SetDeadline.{
  Phase, on_read, on_write, returned, Setting, set_read, set_write, act, with_read, with_write,
  Step, by_caller, by_read_timer, by_write_timer, Runs, here, next, start,
}
use virtsock.Hvsock.Windows.Deadline.Meaning.{
  Meaning, Means, Marks, todo, ticks, Moves, set_act-Moves, Ticks, timer_act-Ticks, todo_le,
  ticks_le,
}

-- What holds of both handlers while `SetDeadline` runs, and how many steps there are at most to come.
abbrev Inside : Deadline → State → Type 0
Inside d s = Holds s × Marks d s.pc

abbrev Done : Deadline → State → Type 0
Done d s = Holds s × Meaning d s.callback s.timedout s.closed

abbrev Stage : Deadline → Phase → State → State → Type 0
Stage d on_read r w = Inside d r × Holds w × (w.pc ≡ outside)
Stage d on_write r w = Done d r × Inside d w
Stage d returned r w = Done d r × Done d w

Stage-Holds : (d : Deadline) (p : Phase) (r w : State) → Stage d p r w → Holds r × Holds w
Stage-Holds d on_read r w v = (v.0.0, v.1)
Stage-Holds d on_write r w v = (v.0.0, v.1.0)
Stage-Holds d returned r w v = (v.0.0, v.1.0)

abbrev rank : Phase → State → State → ℕ
rank on_read r w = todo r.pc + ticks r.callback + 9 + ticks w.callback
rank on_write r w = todo w.pc + ticks w.callback + ticks r.callback
rank returned r w = ticks r.callback + ticks w.callback

abbrev Leads : Deadline → ℕ → Option Setting → Type 0
Leads d n none = Unit
Leads d n (some u) = Stage d u.phase u.read u.write × (rank u.phase u.read u.write < n)

set_read-Leads :
    (d : Deadline) (n : ℕ) (w : State) (o : Option State)
    → Holds w
    → w.pc ≡ outside
    → AfterHolds o
    → Moves d n o
    → Leads d (n + 9 + ticks w.callback) (set_read w o)
set_read-Leads d n w none hw at hr m = tt
set_read-Leads d n w (some r) hw at hr m =
    at_pc r.pc r.callback r.timer r.timedout r.closed r.panicked hr m
  where
    at_pc :
        (pc : Pc) (c : Callback) (timer timedout closed panicked : Bool)
        → Holds (state pc c timer timedout closed panicked)
        → Moves d n (some (state pc c timer timedout closed panicked))
        → Leads d
            (n + 9 + ticks w.callback)
            (set_read w (some (state pc c timer timedout closed panicked)))
    at_pc outside c timer timedout closed panicked h m =
        (((h, m.0), (hw, subst (Marks d) (sym at) tt)), omega (arith, todo_le w.pc, m.1))
    at_pc pc c timer timedout closed panicked h m = (((h, m.0), hw, at), omega (arith, m.1))

set_write-Leads :
    (d : Deadline) (n : ℕ) (r : State) (o : Option State)
    → Done d r
    → AfterHolds o
    → Moves d n o
    → Leads d (n + ticks r.callback) (set_write r o)
set_write-Leads d n r none done hw m = tt
set_write-Leads d n r (some w) done hw m =
    at_pc w.pc w.callback w.timer w.timedout w.closed w.panicked hw m
  where
    at_pc :
        (pc : Pc) (c : Callback) (timer timedout closed panicked : Bool)
        → Holds (state pc c timer timedout closed panicked)
        → Moves d n (some (state pc c timer timedout closed panicked))
        → Leads d
            (n + ticks r.callback)
            (set_write r (some (state pc c timer timedout closed panicked)))
    at_pc outside c timer timedout closed panicked h m = ((done, (h, m.0)), omega (arith, m.1))
    at_pc pc c timer timedout closed panicked h m = ((done, (h, m.0)), omega (arith, m.1))

act-Leads :
    (d : Deadline) (s : Setting)
    → Stage d s.phase s.read s.write
    → Leads d (rank s.phase s.read s.write) (act d s)
unfolding act
act-Leads d s v = at_phase s.phase v
  where
    moved :
        (t : State)
        → Inside d t
        → AfterHolds (set_act d t) × Moves d (todo t.pc + ticks t.callback) (set_act d t)
    moved t v = (
      set_act-AfterHolds d t.pc t.callback t.timer t.timedout t.closed t.panicked v.0,
      set_act-Moves d t.pc t.callback t.timer t.timedout t.closed t.panicked v.0 v.1,
    )

    at_phase :
        (p : Phase)
        → Stage d p s.read s.write
        → Leads d (rank p s.read s.write) (act d (record s { phase = p }))
    at_phase on_read v =
        let (h, m) = moved s.read v.0 in
        set_read-Leads d (todo s.read.pc + ticks s.read.callback) s.write (set_act d s.read) v.1 v.2
          h m
    at_phase on_write v =
        let (h, m) = moved s.write v.1 in
        set_write-Leads d (todo s.write.pc + ticks s.write.callback) s.read (set_act d s.write) v.0
          h m
    at_phase returned v = tt

with_read-Leads :
    (d : Deadline) (s : Setting) (o : Option State)
    → Stage d s.phase s.read s.write
    → AfterHolds o
    → Ticks d s.read.pc s.read.callback s.read.timedout s.read.closed o
    → Leads d (rank s.phase s.read s.write) (with_read s o)
with_read-Leads d s none v h k = tt
with_read-Leads d s (some t) v h k = at_phase s.phase v
  where
    at_phase :
        (p : Phase)
        → Stage d p s.read s.write
        → Stage d p t s.write × (rank p t s.write < rank p s.read s.write)
    at_phase on_read v =
        (((h, subst (Marks d) (sym k.0) v.0.1), v.1, v.2), omega (arith, ap todo k.0, k.1))
    at_phase on_write v = (((h, k.2 v.0.1), v.1), omega (arith, k.1))
    at_phase returned v = (((h, k.2 v.0.1), v.1), omega (arith, k.1))

with_write-Leads :
    (d : Deadline) (s : Setting) (o : Option State)
    → Stage d s.phase s.read s.write
    → AfterHolds o
    → Ticks d s.write.pc s.write.callback s.write.timedout s.write.closed o
    → Leads d (rank s.phase s.read s.write) (with_write s o)
with_write-Leads d s none v h k = tt
with_write-Leads d s (some t) v h k = at_phase s.phase v
  where
    at_phase :
        (p : Phase)
        → Stage d p s.read s.write
        → Stage d p s.read t × (rank p s.read t < rank p s.read s.write)
    at_phase on_read v = ((v.0, h, k.0 ∙ v.2), omega (arith, k.1))
    at_phase on_write v =
        ((v.0, (h, subst (Marks d) (sym k.0) v.1.1)), omega (arith, ap todo k.0, k.1))
    at_phase returned v = ((v.0, (h, k.2 v.1.1)), omega (arith, k.1))

Step-Leads :
    {d : Deadline} {s t : Setting}
    → Stage d s.phase s.read s.write
    → Step d s t
    → Leads d (rank s.phase s.read s.write) (some t)
Step-Leads {d} {s} v (by_caller e) = subst (Leads d _) e (act-Leads d s v)
Step-Leads {d} {s} v (by_read_timer e) = subst (Leads d _) e (
    with_read-Leads d s _ v
      (timer_act-AfterHolds s.read.pc s.read.callback s.read.timer s.read.timedout s.read.closed
        s.read.panicked (Stage-Holds d s.phase s.read s.write v).0)
      (timer_act-Ticks d s.read.pc s.read.callback s.read.timer s.read.timedout s.read.closed
        s.read.panicked))
Step-Leads {d} {s} v (by_write_timer e) = subst (Leads d _) e (
    with_write-Leads d s _ v
      (timer_act-AfterHolds s.write.pc s.write.callback s.write.timer s.write.timedout
        s.write.closed s.write.panicked (Stage-Holds d s.phase s.read s.write v).1)
      (timer_act-Ticks d s.write.pc s.write.callback s.write.timer s.write.timedout s.write.closed
        s.write.panicked))

Runs-Stage :
    {d : Deadline} {s t : Setting} {n : ℕ}
    → Stage d s.phase s.read s.write
    → Runs d s n t
    → Stage d t.phase t.read t.write
      × (n + rank t.phase t.read t.write ≤ rank s.phase s.read s.write)
Runs-Stage v here = (v, omega arith)
Runs-Stage v (next run st) =
    let (stage, le) = Runs-Stage v run in
    let (stage', less) = Step-Leads stage st in (stage', omega (arith, le, less))

-- While a call of `set` is running it can act, or it waits for a callback that has begun and can
-- act; when `SetDeadline` has returned, both handlers mean the deadline.
abbrev pub Progress : Deadline → Phase → State → State → Type 0
Progress d on_read r w = GoesOn d r
Progress d on_write r w = GoesOn d w
Progress d returned r w = Means d r × Means d w

Stage-Progress : (d : Deadline) (p : Phase) (r w : State) → Stage d p r w → Progress d p r w
Stage-Progress d on_read r w v =
    Holds-GoesOn d r.pc r.callback r.timer r.timedout r.closed r.panicked v.0.0
Stage-Progress d on_write r w v =
    Holds-GoesOn d w.pc w.callback w.timer w.timedout w.closed w.panicked v.1.0
Stage-Progress d returned r w v = ((v.0.0.0, v.0.1), (v.1.0.0, v.1.1))

-- `SetDeadline` on a connection none of whose deadlines is being set, whatever was set before and
-- whenever the two timers run: it returns, since there are at most 24 steps of it and the timers,
-- and until it has returned its call of `set` can act, or waits for a callback that can. From then
-- on, while nothing is set, both deadlines mean what was asked for: without a deadline nothing times
-- out, with one in the past both flags are set and both channels closed, and with one in the future
-- so when the timer has run and not before it fires. No channel is closed twice.
pub Runs-Progress :
    (d : Deadline) {r w : State} {n : ℕ} {t : Setting}
    → Reach fresh r
    → Reach fresh w
    → r.pc ≡ outside
    → w.pc ≡ outside
    → Runs d (start r w) n t
    → (n ≤ 24)
      × Progress d t.phase t.read t.write
      × (t.read.panicked ≡ false)
      × (t.write.panicked ≡ false)
Runs-Progress d {r} {w} {n} {t} r_reached w_reached r_out w_out run =
    let v : Stage d on_read r w =
      ((Reach-Holds r_reached, subst (Marks d) (sym r_out) tt), Reach-Holds w_reached, w_out) in
    let (stage, le) = Runs-Stage v run in
    let holds = Stage-Holds d t.phase t.read t.write stage in
    (
      omega (arith, le, ticks_le r.callback, ticks_le w.callback, todo_le r.pc),
      Stage-Progress d t.phase t.read t.write stage,
      holds.0.0,
      holds.1.0,
    )
