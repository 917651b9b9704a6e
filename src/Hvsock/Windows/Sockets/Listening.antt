-- ===== src/Hvsock/Windows/Sockets/Listening.antt =====
-- Which handles `Listen` leaves open on Windows.
use virtsock.Common.{ℕ, ◌≡◌, refl, ap, ◌∙◌, subst, none, some, ◌∷◌, Result, ok, err, length}
use virtsock.System.{Kernel, History, SockAddr, hv}
use virtsock.System
use virtsock.System.Descriptors.{open_fds}
use virtsock.System.Listening.{
  Plan, open_listener, Listened, no_socket, no_address, no_backlog, listens, open_listener-Listened,
}
use virtsock.Hvsock.Addr.{Addr, copy_guid, copy_guid_lem}
use virtsock.Hvsock.Windows.Sockets.{
  Error, bare, failed_bind, failed_listen, Listener, listen, sockaddr, hvsock_af, hvsock_raw,
  sock_stream, somaxconn,
}

plan : Addr → Plan Error Listener
plan a = record {
  domain = hvsock_af;
  kind = sock_stream;
  proto = hvsock_raw;
  address = sockaddr a;
  backlog = somaxconn;
  unmade = bare;
  unbound = λ e. failed_bind e a;
  deaf = λ e. failed_listen e a;
  listener = λ fd. record { fd = fd; local = a };
}

-- The structure that names an address.
abbrev pub named : Addr → SockAddr
named a = hv hvsock_af 0 a.vmid a.service_id

-- The calls behind `Listen` with a structure for its address, and what is open, for each result.
abbrev pub ListenHandles : SockAddr → Addr → History → Result Error Listener → History → Type 0
ListenHandles sa a h (ok l) g =
    (open_fds g ≡ l.fd ∷ open_fds h)
    × (l.local ≡ a)
    × (g
        ≡ System.listen l.fd somaxconn none
          ∷ System.bind l.fd sa none
          ∷ System.socket hvsock_af sock_stream hvsock_raw (ok l.fd)
          ∷ h)
ListenHandles sa a h (err (bare e)) g =
    (open_fds g ≡ open_fds h) × (g ≡ System.socket hvsock_af sock_stream hvsock_raw (err e) ∷ h)
ListenHandles sa a h (err (failed_bind e b)) g =
    (b ≡ a)
    × (fd : ℕ) × (open_fds g ≡ fd ∷ open_fds h)
    × (g ≡ System.bind fd sa (some e) ∷ System.socket hvsock_af sock_stream hvsock_raw (ok fd) ∷ h)
ListenHandles sa a h (err (failed_listen e b)) g =
    (b ≡ a)
    × (fd : ℕ) × (open_fds g ≡ fd ∷ open_fds h)
    × (g
        ≡ System.listen fd somaxconn (some e)
          ∷ System.bind fd sa none
          ∷ System.socket hvsock_af sock_stream hvsock_raw (ok fd)
          ∷ h)
ListenHandles sa a h (err _) g = ⊥

Listened-ListenHandles :
    (k : Kernel) (a : Addr) (h g : History) (q : Result Error Listener)
    → Listened k (plan a) h g q
    → ListenHandles (sockaddr a) a h q g
unfolding plan
Listened-ListenHandles k a h g _ (no_socket e same is) = (same, is)
Listened-ListenHandles k a h g _ (no_address e fd more is) = (refl, fd, more, is)
Listened-ListenHandles k a h g _ (no_backlog e fd more is) = (refl, fd, more, is)
Listened-ListenHandles k a h g _ (listens fd more is) = (more, refl, is)

sockaddr-named : (a : Addr) → length a.vmid ≡ 16 → length a.service_id ≡ 16 → sockaddr a ≡ named a
unfolding sockaddr
sockaddr-named a v w =
    ap (λ x. hv hvsock_af 0 x (copy_guid a.service_id)) (copy_guid_lem a.vmid v)
    ∙ ap (λ x. hv hvsock_af 0 a.vmid x) (copy_guid_lem a.service_id w)

-- `Listen` on Windows returns, for an address whose GUIDs have sixteen bytes each. A listener owns
-- the one handle that was opened, which has been bound to the structure that names the address and
-- then made to listen, both without an error, and has that address. When no socket is made, nothing
-- is opened and nothing else is called. When the handle cannot be bound, or cannot listen, the error
-- is that of the last call, and the handle stays open, though the caller gets only the error.
pub listen-ListenHandles :
    (k : Kernel) (a : Addr) (h : History)
    → length a.vmid ≡ 16
    → length a.service_id ≡ 16
    → (q : Result Error Listener) × (g : History) × (listen k a h ≡ some (q, g))
      × ListenHandles (named a) a h q g
unfolding listen plan open_listener
listen-ListenHandles k a h v w =
    let (q, g, eq, l) = open_listener-Listened k (plan a) h in
    let handles = Listened-ListenHandles k a h g q l in
    (q, g, eq, subst (λ sa. ListenHandles sa a h q g) (sockaddr-named a v w) handles)
