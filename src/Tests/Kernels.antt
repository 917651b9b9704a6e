-- ===== src/Tests/Kernels.antt =====
-- A kernel that interrupts the first `connect`, refuses each later one, and fails to bind.
use virtsock.Common.{ℕ, zero, suc, ◌≤◌, ◌≢◌, none, some, Option, ok, err, length, arith}
use virtsock.System.{Kernel, eintr}
use virtsock.System.Descriptors.{IsPatient, interrupts}

abbrev pub refuse_after : ℕ → Option ℕ
refuse_after zero = some eintr
refuse_after (suc n) = some 111

abbrev pub moody : Kernel
moody = record {
  on_socket = λ h d t p. ok (length h);
  on_connect = λ h fd sa. refuse_after (interrupts h);
  on_bind = λ h fd sa. some 98;
  on_listen = λ h fd n. none;
  on_accept = λ h fd. err 9;
  on_getsockname = λ h fd. ok 36;
  on_shutdown = λ h fd how. none;
  on_dup_cloexec = λ h fd. err 24;
  on_close = λ h fd. none;
  on_associate = λ h fd. none;
  on_set_modes = λ h fd. some 87;
}

refuse_after_lem : (n : ℕ) → 1 ≤ n → refuse_after n ≢ some eintr
refuse_after_lem zero h e = absurd (omega arith)
refuse_after_lem (suc n) h e = ground arith

pub moody-IsPatient : IsPatient moody 1
moody-IsPatient = record {
  connects = λ h fd sa le. refuse_after_lem (interrupts h) le;
  closes = λ h fd le e. cc;
}
