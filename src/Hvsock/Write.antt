-- ===== src/Hvsock/Write.antt =====
-- The batching loop of `Write` on Hyper-V sockets (pkg/hvsock), over the write that sends one
-- batch: `os.File.Write` on Linux, the overlapped `write` on Windows.
pub mod Batches
use virtsock.Common.{
  ℕ, zero, suc, ◌+◌, ◌-◌, ◌*◌, ◌≤◌, ◌<◌, ◌≡◌, ◌≢◌, refl, true, false, Option, none, some, List, [],
  ◌∷◌, ◌++◌, arith, ltb, ◌==◌, if◌then◌else◌, Bytes, length, take, drop, All,
}

-- `maxMsgSize`.
abbrev pub max_msg_size : ℕ
max_msg_size = 8 * 1024

-- `min`.
unfoldable pub min : ℕ → ℕ → ℕ
min x y = if ltb x y then x else y

pub data WriteError (E : Type 0) : Type 0 where
  failed : E → WriteError E
  short_write : ℕ → ℕ → WriteError E

module _ {S E : Type 0} (raw : Bytes → S → (ℕ × Option E) × S) where
  -- What the loop body makes of the raw result: leave the loop, or go on by `next`.
  abbrev pub after_batch :
      ℕ
      → ℕ
      → (ℕ × Option E) × S
      → (ℕ → S → Option ((ℕ × Option (WriteError E)) × S))
      → Option ((ℕ × Option (WriteError E)) × S)
  after_batch written batch ((n, some e), t) next = some ((written, some (failed e)), t)
  after_batch written batch ((n, none), t) next =
      if n == batch then next n t else some ((written, some (short_write n batch)), t)

  -- The variables are `toWrite` and `written`, and the limit on a batch is `maxMsgSize` below;
  -- `none` means that the fuel ran out.
  write_loop : ℕ → ℕ → Bytes → ℕ → ℕ → S → Option ((ℕ × Option (WriteError E)) × S)
  write_loop limit fuel buf written zero s = some ((written, none), s)
  write_loop limit zero buf written (suc k) s = none
  write_loop limit (suc fuel) buf written (suc k) s =
      let batch = min (suc k) limit in
      after_batch written batch (raw (take batch (drop written buf)) s)
        (λ n t. write_loop limit fuel buf (written + n) (suc k - n) t)

  -- A round writes a byte or more, so one unit of fuel for each byte is enough.
  unfoldable pub write : Bytes → S → Option ((ℕ × Option (WriteError E)) × S)
  unfolding write_loop min
  write buf s = write_loop max_msg_size (length buf) buf 0 (length buf) s
