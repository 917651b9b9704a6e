-- ===== src/Hvsock/Windows/Deadline.antt =====
-- `deadlineHandler` of a connection on Windows: `set`, which `setLock` lets one thread run at a
-- time, against the callback of its timer, which runs when time comes.
pub mod Invariant
pub mod Meaning
use virtsock.Common.{Bool, true, false, Option, none, some, if◌then◌else◌, ◌||◌, ◌≡◌}

-- Where the holder of `setLock` is; at `outside` nobody holds it.
pub data Pc : Type 0 where
  outside at_stop at_wait at_clear at_select at_deadline at_mark at_close : Pc

-- The function given to `time.AfterFunc`: not running and not due, due, about to set the flag,
-- about to close the channel.
pub data Callback : Type 0 where
  quiet armed firing closing : Callback

-- `timer` is whether `d.timer` is not nil; `closed` is whether the current channel is closed;
-- `panicked` is whether a closed channel has been closed.
pub record State : Type 0 where
  pub pc : Pc
  pub callback : Callback
  pub timer : Bool
  pub timedout : Bool
  pub closed : Bool
  pub panicked : Bool

-- The deadline, against the present time.
pub data Deadline : Type 0 where
  zero future past : Deadline

-- `close(d.channel)`.
abbrev pub close_channel : State → State
close_channel s = record s { closed = true; panicked = s.panicked || s.closed }

-- `d.timer.Stop()` is true while the timer is armed.
abbrev pub stop : Callback → State → State
stop armed s = record s { pc = at_clear; callback = quiet }
stop _ s = record s { pc = at_wait }

abbrev pub set_deadline : Deadline → State → State
set_deadline zero s = record s { pc = outside }
set_deadline future s = record s { pc = outside; callback = armed; timer = true }
set_deadline past s = record s { pc = at_mark }

-- One action of `set`; `none` means that it waits.
unfoldable pub set_act : Deadline → State → Option State
set_act d s = elim s.pc [
  | outside ↦ some (record s { pc = if s.timer then at_stop else at_clear })
  | at_stop ↦ some (stop s.callback s)
  | at_wait ↦ if s.closed then some (record s { pc = at_clear }) else none
  | at_clear ↦ some (record s { pc = at_select; timer = false; timedout = false })
  | at_select ↦ some (record s { pc = at_deadline; closed = false })
  | at_deadline ↦ some (set_deadline d s)
  | at_mark ↦ some (record s { pc = at_close; timedout = true })
  | at_close ↦ some (close_channel (record s { pc = outside }))
]

-- One action of the timer and its callback.
unfoldable pub timer_act : State → Option State
timer_act s = elim s.callback [
  | quiet ↦ none
  | armed ↦ some (record s { callback = firing })
  | firing ↦ some (record s { callback = closing; timedout = true })
  | closing ↦ some (close_channel (record s { callback = quiet }))
]

pub data Step (s t : State) : Type 0 where
  by_set : (d : Deadline) → set_act d s ≡ some t → Step s t
  by_timer : timer_act s ≡ some t → Step s t

pub data Reach (s : State) : State → Type 0 where
  here : Reach s s
  next : {t u : State} → Reach s t → Step t u → Reach s u

-- A new handler.
abbrev pub fresh : State
fresh = record {
  pc = outside;
  callback = quiet;
  timer = false;
  timedout = false;
  closed = false;
  panicked = false;
}
