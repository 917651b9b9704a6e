-- ===== src/Vsock/Linux/Listen.antt =====
-- Which descriptors `Listen` of pkg/vsock leaves open on Linux.
use virtsock.Common.{ℕ, ◌≤◌, List, [], ◌++◌, length, arith, ◌∷◌, ◌≡◌, refl, some, Result, ok, err}
use virtsock.System.{vm, Kernel, History}
use virtsock.System.Descriptors.{open_fds}
use virtsock.System.Listening.{
  Plan, open_listener, Listened, no_socket, no_address, no_backlog, listens, open_listener-Listened,
}
use virtsock.Vsock.Linux.{
  listen, Listener, Error, bare, failed_bind, failed_listen, af_vsock, stream_cloexec, somaxconn,
}

plan : ℕ → ℕ → Plan Error Listener
plan cid port = record {
  domain = af_vsock;
  kind = stream_cloexec;
  proto = 0;
  address = vm cid port;
  backlog = somaxconn;
  unmade = bare;
  unbound = λ e. failed_bind e cid port;
  deaf = λ e. failed_listen e cid port;
  listener = λ fd. record { fd = fd; local = record { cid = cid; port = port } };
}

-- What `Listen` leaves open, from history `h` to history `g`, for each kind of result.
abbrev pub ListenLeaks : ℕ → ℕ → History → Result Error Listener → History → Type 0
ListenLeaks cid port h (ok l) g =
    (open_fds g ≡ l.fd ∷ open_fds h) × (l.local ≡ record { cid = cid; port = port })
ListenLeaks cid port h (err (bare e)) g = open_fds g ≡ open_fds h
ListenLeaks cid port h (err (failed_bind e c p)) g = (fd : ℕ) × (open_fds g ≡ fd ∷ open_fds h)
ListenLeaks cid port h (err (failed_listen e c p)) g = (fd : ℕ) × (open_fds g ≡ fd ∷ open_fds h)
ListenLeaks cid port h (err _) g = ⊥

Listened-ListenLeaks :
    (k : Kernel) (cid port : ℕ) (h g : History) (q : Result Error Listener)
    → Listened k (plan cid port) h g q
    → ListenLeaks cid port h q g
unfolding plan
Listened-ListenLeaks k cid port h g _ (no_socket e same is) = same
Listened-ListenLeaks k cid port h g _ (no_address e fd more is) = (fd, more)
Listened-ListenLeaks k cid port h g _ (no_backlog e fd more is) = (fd, more)
Listened-ListenLeaks k cid port h g _ (listens fd more is) = (more, refl)

-- `Listen` of pkg/vsock always returns. The listener owns the one descriptor that was opened and
-- has the address asked for; when no socket was made nothing is opened; and when `bind` or `listen`
-- fails, the socket stays open, though the caller gets only the error.
pub listen-ListenLeaks :
    (k : Kernel) (cid port : ℕ) (h : History)
    → (q : Result Error Listener) × (g : History) × (listen k cid port h ≡ some (q, g))
      × ListenLeaks cid port h q g
unfolding listen plan open_listener
listen-ListenLeaks k cid port h =
    let (q, g, eq, l) = open_listener-Listened k (plan cid port) h in
    (q, g, eq, Listened-ListenLeaks k cid port h g q l)

-- With an error at most the socket stays open.
pub ListenLeaks-left_open :
    (cid port : ℕ) (h g : History) (e : Error)
    → ListenLeaks cid port h (err e) g
    → (ls : List ℕ) × (open_fds g ≡ ls ++ open_fds h) × (length ls ≤ 1)
ListenLeaks-left_open cid port h g (bare e) leaks = ([], leaks, omega arith)
ListenLeaks-left_open cid port h g (failed_bind e c p) leaks = (leaks.0 ∷ [], leaks.1, omega arith)
ListenLeaks-left_open cid port h g (failed_listen e c p) leaks =
    (leaks.0 ∷ [], leaks.1, omega arith)
ListenLeaks-left_open cid port h g _ leaks = absurd (ground arith)
