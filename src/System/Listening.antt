-- ===== src/System/Listening.antt =====
-- What the functions `Listen` have in common: a socket that is bound and then listens.
use virtsock.Common.{
  ℕ, ◌∷◌, ◌≡◌, refl, inl, inr, none, some, Option, Result, ok, err, Option-cases, Result-cases,
}
use virtsock.System.{
  Errno, SockAddr, Kernel, Run, return, ◌>>=◌, or_return, unless_error, History, socket, bind,
  call_socket, call_bind, call_listen,
}
use virtsock.System
use virtsock.System.Descriptors.{open_fds}

-- The arguments of the three calls, the errors of the three, and the listener.
pub record Plan (E L : Type 0) : Type 0 where
  pub domain : ℕ
  pub kind : ℕ
  pub proto : ℕ
  pub address : SockAddr
  pub backlog : ℕ
  pub unmade : Errno → E
  pub unbound : Errno → E
  pub deaf : Errno → E
  pub listener : ℕ → L

module _ {E L : Type 0} (k : Kernel) (p : Plan E L) where
  unfoldable pub open_listener : Run (Result E L)
  open_listener = do
    made ← call_socket k p.domain p.kind p.proto
    or_return made p.unmade λ fd. do
      unbound ← call_bind k fd p.address
      unless_error unbound (λ e. return (err (p.unbound e)))
          (do
            deaf ← call_listen k fd p.backlog
            unless_error deaf (λ e. return (err (p.deaf e))) (return (ok (p.listener fd))))

  -- The calls up to `bind`, with its answer.
  abbrev pub bound_with : ℕ → Option Errno → History → History
  bound_with fd answer h = bind fd p.address answer ∷ socket p.domain p.kind p.proto (ok fd) ∷ h

  -- Which call failed, what is then open more than before, and the calls that were made.
  pub data Listened (h g : History) : Result E L → Type 0 where
    no_socket :
        (e : Errno)
        → open_fds g ≡ open_fds h
        → g ≡ socket p.domain p.kind p.proto (err e) ∷ h
        → Listened h g (err (p.unmade e))
    no_address :
        (e : Errno) (fd : ℕ)
        → open_fds g ≡ fd ∷ open_fds h
        → g ≡ bound_with fd (some e) h
        → Listened h g (err (p.unbound e))
    no_backlog :
        (e : Errno) (fd : ℕ)
        → open_fds g ≡ fd ∷ open_fds h
        → g ≡ System.listen fd p.backlog (some e) ∷ bound_with fd none h
        → Listened h g (err (p.deaf e))
    listens :
        (fd : ℕ)
        → open_fds g ≡ fd ∷ open_fds h
        → g ≡ System.listen fd p.backlog none ∷ bound_with fd none h
        → Listened h g (ok (p.listener fd))

  pub open_listener-Listened :
      (h : History)
      → (q : Result E L) × (g : History) × (open_listener h ≡ some (q, g)) × Listened h g q
  unfolding open_listener open_fds
  open_listener-Listened h = elim (Result-cases (k.on_socket h p.domain p.kind p.proto)) [
    | inr (e, made) ↦ (
      err (p.unmade e),
      socket p.domain p.kind p.proto (err e) ∷ h,
      rw (made, open_listener) refl,
      no_socket e refl refl,
    )
    | inl (fd, made) ↦
        let opened = socket p.domain p.kind p.proto (ok fd) ∷ h in
        elim (Option-cases (k.on_bind opened fd p.address)) [
          | inr (e, failed) ↦ (
            err (p.unbound e),
            bind fd p.address (some e) ∷ opened,
            rw (made, open_listener) (rw (failed, or_return, unless_error, ◌>>=◌) refl),
            no_address e fd refl refl,
          )
          | inl bound ↦
              let named = bind fd p.address none ∷ opened in
              elim (Option-cases (k.on_listen named fd p.backlog)) [
                | inr (e, failed) ↦ (
                  err (p.deaf e),
                  System.listen fd p.backlog (some e) ∷ named,
                  rw (made, open_listener)
                      (rw (bound, or_return, unless_error, ◌>>=◌)
                        (rw (failed, unless_error, ◌>>=◌) refl)),
                  no_backlog e fd refl refl,
                )
                | inl heard ↦ (
                  ok (p.listener fd),
                  System.listen fd p.backlog none ∷ named,
                  rw (made, open_listener)
                      (rw (bound, or_return, unless_error, ◌>>=◌)
                        (rw (heard, unless_error, ◌>>=◌) refl)),
                  listens fd refl refl,
                )
              ]
        ]
  ]
