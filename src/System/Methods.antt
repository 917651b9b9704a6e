-- ===== src/System/Methods.antt =====
-- Connections over an `os.File` whose methods are called in any order: what stays open.
use virtsock.Common.{
  ℕ, ◌+◌, ◌<◌, ◌≡◌, refl, ap, ◌∙◌, Bool, true, false, Option, some, List, [], ◌∷◌, Result, ok, err,
  ◌==◌, ◌||◌, ==_iff, if◌then◌else◌, arith, count, Bool-cases, inl, inr, Result-cases,
}
use virtsock.System.{
  Errno, Kernel, History, Run, return, ◌>>=◌, ◌>>◌, or_return, How, shutdown, dup_cloexec, shut_rd,
  shut_wr, call_shutdown, call_dup_cloexec,
}
use virtsock.System
use virtsock.System.Descriptors.{open_fds, erase, is_interrupt}
use virtsock.System.OsFile.{FileError, fd_of, close_file}

-- The methods of a kind of connection that act on its descriptor, and what they are.
pub record Methods (k : Kernel) (C E : Type 0) : Type 0 where
  pub fd : C → ℕ
  pub wrap : Errno → E
  pub close_read : C → Run (Option Errno)
  pub close_write : C → Run (Option Errno)
  pub file : Bool → C → Run (Result E ℕ)
  pub close : Bool → C → Run (Option FileError × Bool)
  pub close_read_is : (c : C) → close_read c ≡ call_shutdown k (fd c) shut_rd
  pub close_write_is : (c : C) → close_write c ≡ call_shutdown k (fd c) shut_wr
  pub file_is :
      (closed : Bool) (c : C)
      → file closed c ≡ (
          call_dup_cloexec k (fd_of closed (fd c)) >>= λ copy.
          or_return copy wrap λ n. return (ok n))
  pub close_is : (closed : Bool) (c : C) → close closed c ≡ close_file k closed (fd c)

pub data Method : Type 0 where
  to_close to_close_read to_close_write to_file : Method

-- Whether the connection's file is closed, and the descriptors of the files that `File` has made.
pub record Session : Type 0 where
  pub closed : Bool
  pub files : List ℕ

abbrev pub fresh : Session
fresh = record { closed = false; files = [] }

abbrev pub with_file : {E : Type 0} → Result E ℕ → Session → Session
with_file (ok n) s = record s { files = n ∷ s.files }
with_file (err e) s = s

-- Whether there is a `Close` among the calls.
abbrev pub closes : List Method → Bool
closes [] = false
closes (to_close ∷ ms) = true
closes (_ ∷ ms) = closes ms

-- How often a descriptor stands in a list.
abbrev pub is : ℕ → ℕ → ℕ
is x y = if y == x then 1 else 0

abbrev pub own : Session → ℕ → ℕ → ℕ
own s fd x = if s.closed then 0 else is x fd

-- What is open is what was, the connection's own descriptor until it is closed, and the files'.
abbrev pub IsBalanced : ℕ → List ℕ → Session → History → Type 0
IsBalanced fd base s h =
    (x : ℕ) → count (is x) (open_fds h) ≡ count (is x) s.files + own s fd x + count (is x) base

erase-count :
    (fd x : ℕ) (fds : List ℕ)
    → 0 < count (is fd) fds
    → count (is x) fds ≡ is x fd + count (is x) (erase fd fds)
erase-count fd x [] pos = absurd (omega arith)
erase-count fd x (y ∷ fds) pos = elim (Bool-cases (y == fd)) [
  | inl same ↦ let e : y ≡ fd = (==_iff y fd).0 same in rw same (rw e refl)
  | inr other ↦
      let later : 0 < count (is fd) fds = ground arith in
      rw other (omega (arith, erase-count fd x fds later))
]

pub erase-balance :
    (fd x : ℕ) (fds files base : List ℕ)
    → ((y : ℕ) → count (is y) fds ≡ count (is y) files + is y fd + count (is y) base)
    → count (is x) (erase fd fds) ≡ count (is x) files + 0 + count (is x) base
erase-balance fd x fds files base v =
    let self : is fd fd ≡ 1 = rw ((==_iff fd fd).1 refl) refl in
    let pos : 0 < count (is fd) fds = omega (arith, v fd) in
    omega (arith, v x, erase-count fd x fds pos)

or_false : (b : Bool) → (b || false) ≡ b
or_false true = refl
or_false false = refl

or_true : (b : Bool) → (b || true) ≡ true
or_true true = refl
or_true false = refl

closes-cons :
    (m : Method) (ms : List Method) (b : Bool)
    → (closes ms || (closes (m ∷ []) || b)) ≡ (closes (m ∷ ms) || b)
closes-cons to_close ms b = or_true (closes ms)
closes-cons to_close_read ms b = refl
closes-cons to_close_write ms b = refl
closes-cons to_file ms b = refl

module _ {C E : Type 0} (k : Kernel) (o : Methods k C E) (c : C) where
  unfoldable pub call : Method → Session → Run Session
  call to_close s = do r ← o.close s.closed c; return (record s { closed = r.1 })
  call to_close_read s = do r ← o.close_read c; return s
  call to_close_write s = do r ← o.close_write c; return s
  call to_file s = do r ← o.file s.closed c; return (with_file r s)

  unfoldable pub calls : List Method → Session → Run Session
  calls [] s = return s
  calls (m ∷ ms) s = do t ← call m s; calls ms t

  module _ (never : (g : History) (fd : ℕ) → is_interrupt (k.on_close g fd) ≡ false)
      (base : List ℕ) where
    close-IsBalanced :
        (closed : Bool) (files : List ℕ) (h : History)
        → IsBalanced (o.fd c) base (record { closed = closed; files = files }) h
        → (g : History) × (call to_close (record { closed = closed; files = files }) h
            ≡ some (record { closed = true; files = files }, g))
          × IsBalanced (o.fd c) base (record { closed = true; files = files }) g
    unfolding call open_fds
    close-IsBalanced true files h v = (h, rw (o.close_is true c) refl, v)
    close-IsBalanced false files h v = (
      System.close (o.fd c) (k.on_close h (o.fd c)) ∷ h,
      rw (o.close_is false c) refl,
      λ x. rw (never h (o.fd c)) (erase-balance (o.fd c) x (open_fds h) files base v),
    )

    call-IsBalanced :
        (m : Method) (s : Session) (h : History)
        → IsBalanced (o.fd c) base s h
        → (t : Session) × (g : History) × (call m s h ≡ some (t, g))
          × IsBalanced (o.fd c) base t g
          × (t.closed ≡ (closes (m ∷ []) || s.closed))
    unfolding call open_fds
    call-IsBalanced to_close s h v =
        let (g, eq, w) = close-IsBalanced s.closed s.files h v in
        (record { closed = true; files = s.files }, g, eq, w, refl)
    call-IsBalanced to_close_read s h v = (
      s,
      shutdown (o.fd c) shut_rd (k.on_shutdown h (o.fd c) shut_rd) ∷ h,
      rw (o.close_read_is c) refl,
      v,
      refl,
    )
    call-IsBalanced to_close_write s h v = (
      s,
      shutdown (o.fd c) shut_wr (k.on_shutdown h (o.fd c) shut_wr) ∷ h,
      rw (o.close_write_is c) refl,
      v,
      refl,
    )
    call-IsBalanced to_file s h v =
        let fd = fd_of s.closed (o.fd c) in
        elim (Result-cases (k.on_dup_cloexec h fd)) [
          | inl (n, made) ↦ (
            record { closed = s.closed; files = n ∷ s.files },
            dup_cloexec fd (ok n) ∷ h,
            rw (o.file_is s.closed c) (rw (made, or_return, ◌>>=◌) refl),
            λ x. omega (arith, v x),
            refl,
          )
          | inr (e, failed) ↦ (
            s,
            dup_cloexec fd (err e) ∷ h,
            rw (o.file_is s.closed c) (rw (failed, or_return, ◌>>=◌) refl),
            v,
            refl,
          )
        ]

    pub calls-IsBalanced :
        (ms : List Method) (s : Session) (h : History)
        → IsBalanced (o.fd c) base s h
        → (t : Session) × (g : History) × (calls ms s h ≡ some (t, g))
          × IsBalanced (o.fd c) base t g
          × (t.closed ≡ (closes ms || s.closed))
    unfolding calls
    calls-IsBalanced [] s h v = (s, h, refl, v, refl)
    calls-IsBalanced (m ∷ ms) s h v =
        let (t, g, eq, w, closed) = call-IsBalanced m s h v in
        let (u, f, eqs, z, closed_then) = calls-IsBalanced ms t g w in
        (
          u,
          f,
          rw (eq, calls, ◌>>=◌) eqs,
          z,
          closed_then ∙ ap (λ b. closes ms || b) closed ∙ closes-cons m ms s.closed,
        )

    -- From a connection that owns one descriptor more than there were.
    pub calls-fresh :
        (ms : List Method) (h : History)
        → open_fds h ≡ o.fd c ∷ base
        → (t : Session) × (g : History) × (calls ms fresh h ≡ some (t, g))
          × IsBalanced (o.fd c) base t g
          × (t.closed ≡ closes ms)
    calls-fresh ms h owns =
        let (t, g, eq, v, closed) =
          calls-IsBalanced ms fresh h (λ x. omega (arith, ap (count (is x)) owns)) in
        (t, g, eq, v, closed ∙ or_false (closes ms))
