-- ===== src/Stress/OnLinux/Balance.antt =====
-- What the clients leave open.
use virtsock.Common.{ℕ, ◌≤◌, ◌≡◌, false, List, ◌∷◌, ◌++◌, length}
use virtsock.System.{Kernel, History, shutdown, shut_wr, close}
use virtsock.System.Descriptors.{is_interrupt, IsPatient, open_fds}
use virtsock.Hvsock.Addr
use virtsock.Hvsock.Linux as Hv
use virtsock.Vsock
use virtsock.Vsock.Linux as V
use virtsock.Stress.OnLinux.{Ended, closing, not_dialled_hvsock}

-- How many descriptors a client leaves open: that of a connection that a call still uses, and that of
-- a Hyper-V socket that has not been connected.
abbrev pub leaked : Ended → ℕ
leaked closing = 1
leaked (not_dialled_hvsock (Hv.failed_connect e a)) = 1
leaked _ = 0

-- What is open is what was, and `ls`.
abbrev pub Leaves : ℕ → History → History → Type 0
Leaves n h g = (ls : List ℕ) × (open_fds g ≡ ls ++ open_fds h) × (length ls ≡ n)

module _ (k : Kernel) (n m : ℕ) (patient : IsPatient k n)
    (never : (g : History) (fd : ℕ) → is_interrupt (k.on_close g fd) ≡ false) (le : n ≤ m) where
  -- `CloseWrite` and `Close` of the connection that owns one descriptor.
  shut : ℕ → History → History
  shut fd h =
      let g = shutdown fd shut_wr (k.on_shutdown h fd shut_wr) ∷ h in close fd (k.on_close g fd) ∷ g

  -- `CloseWrite` alone.
  half_shut : ℕ → History → History
  half_shut fd h = shutdown fd shut_wr (k.on_shutdown h fd shut_wr) ∷ h
