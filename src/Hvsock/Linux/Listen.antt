-- ===== src/Hvsock/Linux/Listen.antt =====
-- Which descriptors `Listen` of pkg/hvsock leaves open on Linux.
use virtsock.Common.{◌≤◌, List, [], ◌++◌, length, arith, ℕ, ◌≡◌, refl, some, ◌∷◌, Result, ok, err}
use virtsock.System.{Kernel, History}
use virtsock.System.Descriptors.{open_fds}
use virtsock.System.Listening.{
  Plan, open_listener, Listened, no_socket, no_address, no_backlog, listens, open_listener-Listened,
}
use virtsock.Hvsock.Addr.{Addr}
use virtsock.Hvsock.Linux.{
  listen, Listener, Error, bare, failed_bind, failed_listen, sockaddr, hvsock_af, hvsock_raw,
  sock_stream, somaxconn,
}

plan : Addr → Plan Error Listener
plan a = record {
  domain = hvsock_af;
  kind = sock_stream;
  proto = hvsock_raw;
  address = sockaddr a;
  backlog = somaxconn;
  unmade = bare;
  unbound = λ e. failed_bind e a;
  deaf = λ e. failed_listen e a;
  listener = λ fd. record { fd = fd; local = a };
}

-- What `Listen` leaves open, from history `h` to history `g`, for each kind of result.
abbrev pub ListenerLeaks : Addr → History → Result Error Listener → History → Type 0
ListenerLeaks a h (ok l) g = (open_fds g ≡ l.fd ∷ open_fds h) × (l.local ≡ a)
ListenerLeaks a h (err (bare e)) g = open_fds g ≡ open_fds h
ListenerLeaks a h (err (failed_bind e b)) g = (fd : ℕ) × (open_fds g ≡ fd ∷ open_fds h) × (b ≡ a)
ListenerLeaks a h (err (failed_listen e b)) g = (fd : ℕ) × (open_fds g ≡ fd ∷ open_fds h) × (b ≡ a)
ListenerLeaks a h (err _) g = ⊥

Listened-ListenerLeaks :
    (k : Kernel) (a : Addr) (h g : History) (q : Result Error Listener)
    → Listened k (plan a) h g q
    → ListenerLeaks a h q g
unfolding plan
Listened-ListenerLeaks k a h g _ (no_socket e same is) = same
Listened-ListenerLeaks k a h g _ (no_address e fd more is) = (fd, more, refl)
Listened-ListenerLeaks k a h g _ (no_backlog e fd more is) = (fd, more, refl)
Listened-ListenerLeaks k a h g _ (listens fd more is) = (more, refl)

-- `Listen` of a Hyper-V socket on Linux always returns. The listener owns the one descriptor that was
-- opened and has the address asked for; when no socket was made nothing is opened; and when `bind` or
-- `listen` fails, the socket stays open, though the caller gets only the error.
pub listen-ListenerLeaks :
    (k : Kernel) (a : Addr) (h : History)
    → (q : Result Error Listener) × (g : History) × (listen k a h ≡ some (q, g))
      × ListenerLeaks a h q g
unfolding listen plan open_listener
listen-ListenerLeaks k a h =
    let (q, g, eq, l) = open_listener-Listened k (plan a) h in
    (q, g, eq, Listened-ListenerLeaks k a h g q l)

-- With an error at most the socket stays open.
pub ListenerLeaks-left_open :
    (a : Addr) (h g : History) (e : Error)
    → ListenerLeaks a h (err e) g
    → (ls : List ℕ) × (open_fds g ≡ ls ++ open_fds h) × (length ls ≤ 1)
ListenerLeaks-left_open a h g (bare e) leaks = ([], leaks, omega arith)
ListenerLeaks-left_open a h g (failed_bind e b) leaks = (leaks.0 ∷ [], leaks.1, omega arith)
ListenerLeaks-left_open a h g (failed_listen e b) leaks = (leaks.0 ∷ [], leaks.1, omega arith)
ListenerLeaks-left_open a h g _ leaks = absurd (ground arith)
