-- ===== src/Tests/Deadlines.antt =====
-- Deadline handlers whose `set` has run, with a deadline in the past.
use virtsock.Common.{◌≤◌, ◌≡◌, ◌≢◌, refl, true, false, arith}
use virtsock.Hvsock.Windows.Deadline.{
  State, Reach, here, next, by_set, by_timer, past, future, fresh, outside, at_wait, quiet, firing,
  set_act, timer_act,
}
use virtsock.Hvsock.Windows.Deadline.Invariant.{Reach-agrees}
use virtsock.Hvsock.Windows.Deadline.Meaning.{Means}
use virtsock.Hvsock.Windows.SetDeadline
use virtsock.Hvsock.Windows.SetDeadline.Sets.{Runs-Progress}

abbrev expired : State
expired = record fresh { timedout = true; closed = true }

expired-Reach : Reach fresh expired
unfolding set_act
expired-Reach =
    next
      (next
        (next (next (next (next here (by_set past refl)) (by_set past refl)) (by_set past refl))
          (by_set past refl))
        (by_set past refl))
      (by_set past refl)

Reach-agrees_example :
    (expired.panicked ≡ false)
    × (expired.pc ≡ outside → expired.callback ≡ quiet → expired.timedout ≡ expired.closed)
Reach-agrees_example = Reach-agrees {t = expired} expired-Reach

-- A second `set`, which waits for a timer that has just fired.
abbrev waiting_for_timer : State
waiting_for_timer = record fresh { pc = at_wait; callback = firing; timer = true }

waiting_for_timer-Reach : Reach fresh waiting_for_timer
unfolding set_act timer_act
waiting_for_timer-Reach =
    next
      (next
        (next
          (next
            (next (next (next here (by_set future refl)) (by_set future refl)) (by_set future refl))
            (by_set future refl))
          (by_timer refl))
        (by_set past refl))
      (by_set past refl)

waiting_is_inside : waiting_for_timer.pc ≢ outside
waiting_is_inside = λ e. ground arith

-- `SetDeadline` with a deadline in the past, where that for reads has passed already.
abbrev both_expired : SetDeadline.Setting
both_expired = record { phase = SetDeadline.returned; read = expired; write = expired }

both_expired-Runs : SetDeadline.Runs past (SetDeadline.start expired fresh) 12 both_expired
unfolding SetDeadline.act set_act
both_expired-Runs =
    SetDeadline.next
      (SetDeadline.next
        (SetDeadline.next
          (SetDeadline.next
            (SetDeadline.next
              (SetDeadline.next
                (SetDeadline.next
                  (SetDeadline.next
                    (SetDeadline.next
                      (SetDeadline.next
                        (SetDeadline.next
                          (SetDeadline.next SetDeadline.here (SetDeadline.by_caller refl))
                          (SetDeadline.by_caller refl))
                        (SetDeadline.by_caller refl))
                      (SetDeadline.by_caller refl))
                    (SetDeadline.by_caller refl))
                  (SetDeadline.by_caller refl))
                (SetDeadline.by_caller refl))
              (SetDeadline.by_caller refl))
            (SetDeadline.by_caller refl))
          (SetDeadline.by_caller refl))
        (SetDeadline.by_caller refl))
      (SetDeadline.by_caller refl)

Runs-Progress_example :
    (12 ≤ 24)
    × (Means past expired × Means past expired)
    × (expired.panicked ≡ false)
    × (expired.panicked ≡ false)
Runs-Progress_example =
    Runs-Progress past {r = expired} {w = fresh} expired-Reach here refl refl both_expired-Runs
