-- ===== src/System/Descriptors.antt =====
-- The descriptors that a history leaves open, and kernels that interrupt a bounded number of times.
use virtsock.Common.{
  ap, ==_iff, refl, ℕ, ◌+◌, ◌≤◌, ◌≡◌, ◌≢◌, Bool, true, false, Option, none, some, List, [], ◌∷◌, ok,
  ◌==◌, if◌then◌else◌,
}
use virtsock.System.{
  Event, History, Kernel, Errno, SockAddr, eintr, socket, connect, accept, dup_cloexec, close,
}

-- The latest opened descriptor of that number.
abbrev pub erase : ℕ → List ℕ → List ℕ
erase fd [] = []
erase fd (x ∷ fds) = if x == fd then fds else x ∷ erase fd fds

abbrev pub is_interrupt : Option Errno → Bool
is_interrupt none = false
is_interrupt (some e) = e == eintr

-- A close that is not interrupted frees its descriptor.
abbrev pub open_after : Event → List ℕ → List ℕ
open_after (socket _ _ _ (ok fd)) fds = fd ∷ fds
open_after (accept _ (ok (fd, _))) fds = fd ∷ fds
open_after (dup_cloexec _ (ok fd)) fds = fd ∷ fds
open_after (close fd r) fds = if is_interrupt r then fds else erase fd fds
open_after _ fds = fds

unfoldable pub open_fds : History → List ℕ
open_fds [] = []
open_fds (e ∷ h) = open_after e (open_fds h)

abbrev pub interrupted : Event → ℕ
interrupted (connect _ _ r) = if is_interrupt r then 1 else 0
interrupted (close _ r) = if is_interrupt r then 1 else 0
interrupted _ = 0

-- How many calls of `connect` and `close` a signal has interrupted.
unfoldable pub interrupts : History → ℕ
interrupts [] = 0
interrupts (e ∷ h) = interrupted e + interrupts h

-- From `n` interrupted calls on, the kernel interrupts no more.
pub record IsPatient (k : Kernel) (n : ℕ) : Type 0 where
  pub connects :
      (h : History) (fd : ℕ) (sa : SockAddr) → n ≤ interrupts h → k.on_connect h fd sa ≢ some eintr
  pub closes : (h : History) (fd : ℕ) → n ≤ interrupts h → k.on_close h fd ≢ some eintr

pub interrupt-eq : (r : Option Errno) → is_interrupt r ≡ true → r ≡ some eintr
interrupt-eq none i = cc
interrupt-eq (some e) i = ap some ((==_iff e eintr).0 i)

pub erase_head : (fd : ℕ) (fds : List ℕ) → erase fd (fd ∷ fds) ≡ fds
erase_head fd fds = rw ((==_iff fd fd).1 refl)
