-- ===== src/Hvsock/Windows/Ports.antt =====
-- The one completion port of pkg/hvsock on Windows: `initIo` behind `ioInitOnce`, and what
-- `newHVsockConn` ties to it. What `createIoCompletionPort` and the setting of the notification modes
-- answer is a parameter, by the state and the handle.
pub mod Single
use virtsock.Common.{ℕ, Bool, true, false, Option, none, some, List, [], ◌∷◌, Result, ok, err}
use virtsock.System.{Errno}

-- `ioInitOnce` has run; `ioCompletionPort`; the port of each `ioCompletionProcessor`; the handles that
-- have been tied to a port, each with its port, the latest first.
pub record Ports : Type 0 where
  pub once : Bool
  pub port : ℕ
  pub processors : List ℕ
  pub ties : List (ℕ × ℕ)

abbrev pub fresh : Ports
fresh = record { once = false; port = 0; processors = []; ties = [] }

-- `on_create` makes a port; `on_tie` ties a handle to one.
pub record Calls : Type 0 where
  pub on_create : Ports → Result Errno ℕ
  pub on_tie : Ports → ℕ → ℕ → Option Errno
  pub on_set_modes : Ports → ℕ → Option Errno

-- `initIo`; `none` is its call of `panic`.
abbrev pub init_io : Result Errno ℕ → Ports → Option Ports
init_io (err e) s = none
init_io (ok h) s = some (record s { port = h; processors = h ∷ s.processors; once = true })

-- `ioInitOnce.Do(initIo)`.
abbrev pub do_once : Calls → Bool → Ports → Option Ports
do_once k true s = some s
do_once k false s = init_io (k.on_create s) s

abbrev pub set_modes : ℕ → Option Errno → Ports → Result Errno ℕ × Ports
set_modes fd none s = (ok fd, s)
set_modes fd (some e) s = (err e, s)

abbrev pub tied : Calls → ℕ → Option Errno → Ports → Result Errno ℕ × Ports
tied k fd (some e) s = (err e, s)
tied k fd none s =
    let t : Ports = record s { ties = (fd, s.port) ∷ s.ties } in
    set_modes fd (k.on_set_modes t fd) t

abbrev pub after_init : Calls → ℕ → Option Ports → Option (Result Errno ℕ × Ports)
after_init k fd none = none
after_init k fd (some t) = some (tied k fd (k.on_tie t fd t.port) t)

-- `newHVsockConn`, up to the connection that it makes of the handle.
unfoldable pub new_conn : Calls → ℕ → Ports → Option (Result Errno ℕ × Ports)
new_conn k fd s = after_init k fd (do_once k s.once s)

-- The results so far, the latest first.
abbrev pub Made : Type 0
Made = List (Result Errno ℕ) × Ports

abbrev pub then_rest :
    (Made → Option Made) → List (Result Errno ℕ) → Option (Result Errno ℕ × Ports) → Option Made
then_rest next rs none = none
then_rest next rs (some (r, t)) = next (r ∷ rs, t)

-- For one handle after the other.
unfoldable pub new_conns : Calls → List ℕ → Made → Option Made
new_conns k [] made = some made
new_conns k (fd ∷ fds) (rs, s) = then_rest (new_conns k fds) rs (new_conn k fd s)
