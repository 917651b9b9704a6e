-- ===== src/Hvsock/Windows/Close.antt =====
-- `prepareIo` and `close` of a connection on Windows, run by any number of threads. A step is one
-- atomic action: an operation on `wgLock`, on `closing`, on the wait group, or a system call. When
-- the system completes a pending operation is left open here: it may be at any time or never, so that
-- what holds here holds whatever the peer and `cancelIoEx` bring about. Life has both.
pub mod Invariant
pub mod Phases
use virtsock.Common.{
  ℕ, zero, suc, ◌+◌, ◌-◌, ◌≡◌, Bool, true, false, ◌||◌, Option, none, some, List, [], ◌∷◌, ◌++◌,
  ltb, ◌==◌, if◌then◌else◌,
}

-- Where a thread is. The names before the comment belong to `Read` and `write`, with their calls of
-- `prepareIo` and `asyncIo`, the others to `close`.
pub data Pc : Type 0 where
  io_start io_locked io_refuse io_add io_added io_ready io_pending io_complete io_done : Pc
  close_start close_locked close_lost close_won close_cancel close_wait close_free close_zero : Pc
  close_done : Pc

-- The fields of `hvsockConn` that the threads share, with the state of `wgLock`, and how often the
-- handle has been given to `syscall.Close`.
pub record Shared : Type 0 where
  pub closing : Bool
  pub wg : ℕ
  pub readers : ℕ
  pub writer : Bool
  pub closes : ℕ

-- One action of a thread; `none` means that it has to wait, or has returned. The flag says
-- of an operation about to be issued whether its deadline has passed, and of a pending one whether the
-- system has completed it.
unfoldable pub act : Bool → Shared → Pc → Option (Shared × Pc)
act flag s io_start =
    if s.writer then none else some (record s { readers = s.readers + 1 }, io_locked)
act flag s io_locked = some (s, (if s.closing then io_refuse else io_add))
act flag s io_refuse = some (record s { readers = s.readers - 1 }, io_done)
act flag s io_add = some (record s { wg = s.wg + 1 }, io_added)
act flag s io_added = some (record s { readers = s.readers - 1 }, io_ready)
act flag s io_ready = some (s, (if flag then io_complete else io_pending))
act flag s io_pending = if flag then some (s, io_complete) else none
act flag s io_complete = some (record s { wg = s.wg - 1 }, io_done)
act flag s io_done = none
act flag s close_start =
    if s.writer || ltb 0 s.readers then none else some (record s { writer = true }, close_locked)
act flag s close_locked =
    some (record s { closing = true }, (if s.closing then close_lost else close_won))
act flag s close_lost = some (record s { writer = false }, close_done)
act flag s close_won = some (record s { writer = false }, close_cancel)
act flag s close_cancel = some (s, close_wait)
act flag s close_wait = if s.wg == 0 then some (s, close_free) else none
act flag s close_free = some (record s { closes = s.closes + 1 }, close_zero)
act flag s close_zero = some (s, close_done)
act flag s close_done = none

pub record State : Type 0 where
  pub shared : Shared
  pub threads : List Pc

-- Some thread makes its next action.
pub data Step (s t : State) : Type 0 where
  step :
      (pre post : List Pc) (pc pc' : Pc) (flag : Bool) (shared' : Shared)
      → s.threads ≡ pre ++ pc ∷ post
      → act flag s.shared pc ≡ some (shared', pc')
      → t ≡ record { shared = shared'; threads = pre ++ pc' ∷ post }
      → Step s t

pub data Reach (s : State) : State → Type 0 where
  here : Reach s s
  next : {t u : State} → Reach s t → Step t u → Reach s u

-- A connection that `newHVsockConn` has made.
abbrev pub fresh : Shared
fresh = record { closing = false; wg = 0; readers = 0; writer = false; closes = 0 }

-- Any number of threads are about to read or write, and any number about to close.
abbrev pub AreStarting : List Pc → Type 0
AreStarting [] = Unit
AreStarting (io_start ∷ ts) = AreStarting ts
AreStarting (close_start ∷ ts) = AreStarting ts
AreStarting (_ ∷ ts) = ⊥
