-- ===== src/Hvsock/Windows/SetDeadline.antt =====
-- `SetDeadline` of a connection on Windows, which sets the deadline for reads and then that for
-- writes, while the timers of both run. No other deadline of the connection is set meanwhile. `set`
-- reports no error, so neither does `SetDeadline`.
pub mod Sets
use virtsock.Common.{ℕ, suc, Option, none, some, ◌≡◌}
use virtsock.Hvsock.Windows.Deadline.{Pc, outside, State, Deadline, set_act, timer_act}

-- Which of the two calls of `set` is running.
pub data Phase : Type 0 where
  on_read on_write returned : Phase

-- `readDeadline` and `writeDeadline`, and the call.
pub record Setting : Type 0 where
  pub phase : Phase
  pub read : State
  pub write : State

-- A call of `set` has returned when it has let go of `setLock`.
abbrev pub phase_after : Pc → Phase → Phase → Phase
phase_after outside now following = following
phase_after _ now following = now

-- `SetReadDeadline` and `SetWriteDeadline`.
abbrev pub set_read : State → Option State → Option Setting
set_read w none = none
set_read w (some r) =
    some (record { phase = phase_after r.pc on_read on_write; read = r; write = w })

abbrev pub set_write : State → Option State → Option Setting
set_write r none = none
set_write r (some w) =
    some (record { phase = phase_after w.pc on_write returned; read = r; write = w })

-- One action of `SetDeadline`; `none` means that it waits, or has returned.
unfoldable pub act : Deadline → Setting → Option Setting
act d s = elim s.phase [
  | on_read ↦ set_read s.write (set_act d s.read)
  | on_write ↦ set_write s.read (set_act d s.write)
  | returned ↦ none
]

abbrev pub with_read : Setting → Option State → Option Setting
with_read s none = none
with_read s (some r) = some (record s { read = r })

abbrev pub with_write : Setting → Option State → Option Setting
with_write s none = none
with_write s (some w) = some (record s { write = w })

pub data Step (d : Deadline) (s t : Setting) : Type 0 where
  by_caller : act d s ≡ some t → Step d s t
  by_read_timer : with_read s (timer_act s.read) ≡ some t → Step d s t
  by_write_timer : with_write s (timer_act s.write) ≡ some t → Step d s t

-- The steps of a run are counted.
pub data Runs (d : Deadline) (s : Setting) : ℕ → Setting → Type 0 where
  here : Runs d s 0 s
  next : {n : ℕ} {t u : Setting} → Runs d s n t → Step d t u → Runs d s (suc n) u

abbrev pub start : State → State → Setting
start r w = record { phase = on_read; read = r; write = w }
