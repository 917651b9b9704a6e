-- ===== src/Hvsock/Windows/Io/Contract.antt =====
-- What the callers of `Read` and `write` on Windows can rely on.
use virtsock.Common.{
  ℕ, zero, suc, ◌≤◌, ◌<◌, ◌≡◌, refl, Bool, true, false, Option, none, some, arith, Bool-cases, inl,
  inr,
}
use virtsock.Hvsock.Windows.Io.{
  IoError, io_pending, operation_aborted, broken_pipe, system, eof, timeout, already_closed, Answer,
  Wakeup, completed, late, Course, woken, async_io, with_eof, read, write,
}

-- An error of a system call that is final: not pending, and none of the package's own.
abbrev pub IsFinal : Option IoError → Type 0
IsFinal none = Unit
IsFinal (some operation_aborted) = Unit
IsFinal (some broken_pipe) = Unit
IsFinal (some (system n)) = Unit
IsFinal (some _) = ⊥

abbrev pub IsIssued : Option IoError → Type 0
IsIssued (some io_pending) = Unit
IsIssued e = IsFinal e

abbrev pub answer : Wakeup → Answer
answer (completed a) = a
answer (late a) = a

-- The documented behaviour of the overlapped calls on a buffer of `len` bytes: a call is pending or
-- final, a completion is final, and none moves more bytes than there are in the buffer.
pub record IsCourse (len : ℕ) (c : Course) : Type 0 where
  pub issued_is : IsIssued c.issued.1
  pub issued_le : c.issued.0 ≤ len
  pub woken_is : IsFinal (answer c.wakeup).1
  pub woken_le : (answer c.wakeup).0 ≤ len

-- What an operation may return: never a pending one, and never `io.EOF`.
abbrev pub IsSettled : ℕ → Answer → Type 0
IsSettled len (n, some io_pending) = ⊥
IsSettled len (n, some eof) = ⊥
IsSettled len (n, e) = n ≤ len

final-IsSettled : (len n : ℕ) (e : Option IoError) → IsFinal e → n ≤ len → IsSettled len (n, e)
final-IsSettled len n none f le = le
final-IsSettled len n (some operation_aborted) f le = le
final-IsSettled len n (some broken_pipe) f le = le
final-IsSettled len n (some (system x)) f le = le
final-IsSettled len n (some _) f le = absurd f

woken-IsSettled :
    (len : ℕ) (closing : Bool) (w : Wakeup)
    → IsFinal (answer w).1
    → (answer w).0 ≤ len
    → IsSettled len (woken closing w)
woken-IsSettled len true (completed (n, some operation_aborted)) f le = le
woken-IsSettled len true (completed (n, e)) f le = final-IsSettled len n e f le
woken-IsSettled len false (completed (n, e)) f le = final-IsSettled len n e f le
woken-IsSettled len closing (late (n, some operation_aborted)) f le = le
woken-IsSettled len closing (late (n, e)) f le = final-IsSettled len n e f le

settle-IsSettled :
    (len : ℕ) (closing : Bool) (w : Wakeup) (a : Answer)
    → IsFinal (answer w).1
    → (answer w).0 ≤ len
    → IsIssued a.1
    → a.0 ≤ len
    → IsSettled len (async_io a w closing)
unfolding async_io
settle-IsSettled len closing w (n, some io_pending) f wle i le = woken-IsSettled len closing w f wle
settle-IsSettled len closing w (n, none) f wle i le = le
settle-IsSettled len closing w (n, some operation_aborted) f wle i le = le
settle-IsSettled len closing w (n, some broken_pipe) f wle i le = le
settle-IsSettled len closing w (n, some (system x)) f wle i le = le
settle-IsSettled len closing w (n, some _) f wle i le = absurd i

async_io-IsSettled :
    (len : ℕ) (c : Course) → IsCourse len c → IsSettled len (async_io c.issued c.wakeup c.closing)
async_io-IsSettled len c v =
    settle-IsSettled len c.closing c.wakeup c.issued v.woken_is v.woken_le v.issued_is v.issued_le

-- What `Read` may return: bytes, or an error that is final.
abbrev pub IsRead : ℕ → Answer → Type 0
IsRead len (n, none) = (0 < n) × (n ≤ len)
IsRead len (n, some io_pending) = ⊥
IsRead len (n, some broken_pipe) = ⊥
IsRead len (n, some eof) = n ≡ 0
IsRead len (n, some e) = n ≤ len

with_eof-IsRead :
    (len : ℕ) (a : Answer) → IsSettled (suc len) a → IsRead (suc len) (with_eof (suc len) a)
with_eof-IsRead len (zero, none) s = ground arith
with_eof-IsRead len (suc n, none) s = ground arith
with_eof-IsRead len (n, some broken_pipe) s = refl
with_eof-IsRead len (n, some operation_aborted) s = s
with_eof-IsRead len (n, some (system x)) s = s
with_eof-IsRead len (n, some timeout) s = s
with_eof-IsRead len (n, some already_closed) s = s
with_eof-IsRead len (n, some _) s = absurd s

-- If the overlapped calls behave as documented (an answer is pending or final, a completion is
-- final, and neither counts more bytes than the buffer has), then `Read` on a buffer that is not
-- empty returns, and as `io.Reader` asks: at most as many bytes as
-- the buffer has, and no error only with a byte or more. A pending call or a broken pipe never
-- shows, and `io.EOF` comes with no bytes.
pub read-IsRead :
    (len : ℕ) (c : Course)
    → IsCourse (suc len) c
    → (a : Answer) × (read (suc len) c ≡ some a) × IsRead (suc len) a
unfolding read
read-IsRead len c v = (
  _,
  refl,
  elim (Bool-cases c.refused) [
    | inl r ↦ rw r (omega arith)
    | inr go ↦ rw go (elim (Bool-cases c.timed_out) [
      | inl r ↦ rw r (omega arith)
      | inr on ↦ rw on (with_eof-IsRead len _ (async_io-IsSettled (suc len) c v))
    ])
  ],
)

-- Under the same documented behaviour of the overlapped calls, a raw `write` of a batch, of any
-- size, settles: it moves at most as many bytes as the batch has,
-- and its error is neither a pending call nor `io.EOF`.
write-IsSettled : (len : ℕ) (c : Course) → IsCourse len c → IsSettled len (write len c)
unfolding write
write-IsSettled zero c v = omega arith
write-IsSettled (suc len) c v = elim (Bool-cases c.refused) [
  | inl r ↦ rw r (omega arith)
  | inr go ↦ rw go (elim (Bool-cases c.timed_out) [
    | inl r ↦ rw r (omega arith)
    | inr on ↦ rw on (async_io-IsSettled (suc len) c v)
  ])
]
