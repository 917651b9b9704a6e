-- ===== src/Hvsock/Windows/Sockets/Handles.antt =====
-- Which handles `Dial` and `Accept` leave open on Windows.
use virtsock.Common.{
  ℕ, ◌≡◌, refl, ap, ◌∙◌, inl, inr, ◌⊎◌, none, some, ◌∷◌, Result, ok, err, Option-cases,
  Result-cases, length,
}
use virtsock.System.{
  Errno, SockAddr, hv, Kernel, History, ◌>>=◌, or_return, unless_error, associate, set_modes,
}
use virtsock.System
use virtsock.System.Descriptors.{open_fds}
use virtsock.Hvsock.Addr.{Addr, copy_guid, copy_guid-copy_guid}
use virtsock.Hvsock.Windows.Sockets.{
  Error, bare, Conn, Listener, new_hvsock_conn, accept, sockaddr, remote_of, hvsock_af, hvsock_raw,
  sock_stream,
}

-- The error is the answer of one of the two calls by which `newHVsockConn` ties the handle to the
-- completion port, of which the first has succeeded when the second is made.
abbrev pub IsLater : Kernel → ℕ → History → Error → Type 0
IsLater k fd h (bare e) =
    (k.on_associate h fd ≡ some e)
    ⊎ ((k.on_associate h fd ≡ none) × (k.on_set_modes (associate fd none ∷ h) fd ≡ some e))
IsLater k fd h _ = ⊥

-- What is open at `g` if it was `fds` and a handle `fd` has been handed to `newHVsockConn`: the same,
-- with an error too.
new_hvsock_conn_lem :
    (k : Kernel) (fd : ℕ) (local remote : Addr) (h : History)
    → (q : Result Error Conn) × (g : History) × (new_hvsock_conn k fd local remote h ≡ some (q, g))
      × (open_fds g ≡ open_fds h)
      × ((q ≡ ok (record { fd = fd; local = local; remote = remote }))
          ⊎ ((e : Error) × (q ≡ err e) × IsLater k fd h e))
unfolding new_hvsock_conn open_fds
new_hvsock_conn_lem k fd local remote h = elim (Option-cases (k.on_associate h fd)) [
  | inr (e, apart) ↦ (
    err (bare e),
    associate fd (some e) ∷ h,
    rw (apart, new_hvsock_conn) refl,
    refl,
    inr (bare e, refl, inl apart),
  )
  | inl tied ↦ elim (Option-cases (k.on_set_modes (associate fd none ∷ h) fd)) [
    | inr (e, unset) ↦ (
      err (bare e),
      set_modes fd (some e) ∷ associate fd none ∷ h,
      rw (tied, new_hvsock_conn) (rw (unset, unless_error, ◌>>=◌) refl),
      refl,
      inr (bare e, refl, inr (tied, unset)),
    )
    | inl set ↦ (
      ok (record { fd = fd; local = local; remote = remote }),
      set_modes fd none ∷ associate fd none ∷ h,
      rw (tied, new_hvsock_conn) (rw (set, unless_error, ◌>>=◌) refl),
      refl,
      inl refl,
    )
  ]
]

-- What an error leaves open, if the call that opens a handle answered `opened`: nothing new if that
-- call failed, otherwise the handle, which the caller never gets.
abbrev pub Leaks : {A : Type 0} → (A → ℕ) → Result Errno A → History → History → Type 0
Leaks handle (ok a) h g = open_fds g ≡ handle a ∷ open_fds h
Leaks handle (err e) h g = open_fds g ≡ open_fds h

abbrev pub DialHandles : Kernel → Addr → History → Result Error Conn → History → Type 0
DialHandles k a h (ok c) g = (open_fds g ≡ c.fd ∷ open_fds h) × (c.remote ≡ a)
DialHandles k a h (err e) g = Leaks (λ fd. fd) (k.on_socket h hvsock_af sock_stream hvsock_raw) h g

-- What an error of `Accept` is and leaves open, by what the system's `accept` answered.
abbrev pub AcceptFails :
    Kernel → ℕ → Result Errno (ℕ × SockAddr) → Error → History → History → Type 0
AcceptFails k fd (err e) x h g = (open_fds g ≡ open_fds h) × (x ≡ bare e)
AcceptFails k fd (ok (c, sa)) x h g =
    (open_fds g ≡ c ∷ open_fds h) × IsLater k c (System.accept fd (ok (c, sa)) ∷ h) x

abbrev pub AcceptHandles : Kernel → Listener → History → Result Error Conn → History → Type 0
AcceptHandles k v h (ok c) g =
    (open_fds g ≡ c.fd ∷ open_fds h)
    × (c.local ≡ v.local)
    × ((sa : SockAddr) × (k.on_accept h v.fd ≡ ok (c.fd, sa)) × (c.remote ≡ remote_of sa))
AcceptHandles k v h (err e) g = AcceptFails k v.fd (k.on_accept h v.fd) e h g

pub accept_lem :
    (k : Kernel) (v : Listener) (h : History)
    → (q : Result Error Conn) × (g : History) × (accept k v h ≡ some (q, g))
      × AcceptHandles k v h q g
unfolding accept open_fds
accept_lem k v h = elim (Result-cases (k.on_accept h v.fd)) [
  | inr (e, taken) ↦
      (err (bare e), System.accept v.fd (err e) ∷ h, rw (taken, accept) refl, rw taken (refl, refl))
  | inl ((fd, sa), taken) ↦
      let (q, g, eq, same, cases) =
        new_hvsock_conn_lem k fd v.local (remote_of sa) (System.accept v.fd (ok (fd, sa)) ∷ h) in
      (
        q,
        g,
        rw (taken, accept) eq,
        elim cases [
          | inl is ↦ rw is (same, refl, (sa, taken, refl))
          | inr (e, is, later) ↦ rw is (rw taken (same, later))
        ],
      )
]

-- A structure that the system has filled in with two GUIDs of sixteen bytes.
abbrev pub IsFilled : SockAddr → Type 0
IsFilled (hv family reserved vm_id service) = (length vm_id ≡ 16) × (length service ≡ 16)
IsFilled _ = ⊥

-- The address in it.
abbrev pub Names : SockAddr → Addr → Type 0
Names (hv family reserved vm_id service) a = (a.vmid ≡ vm_id) × (a.service_id ≡ service)
Names _ a = ⊥

abbrev pub Accepts : Kernel → Listener → History → Result Error Conn → History → Type 0
Accepts k v h (ok c) g =
    (open_fds g ≡ c.fd ∷ open_fds h)
    × (c.local ≡ v.local)
    × ((sa : SockAddr) × (k.on_accept h v.fd ≡ ok (c.fd, sa)) × Names sa c.remote)
Accepts k v h (err e) g = AcceptFails k v.fd (k.on_accept h v.fd) e h g

-- An address put into a `rawSockaddrHyperv` by `sockaddr` and taken out again by `Accept` is the
-- same, if its GUIDs have sixteen bytes each.
pub remote_of-sockaddr :
    (a : Addr) → length a.vmid ≡ 16 → length a.service_id ≡ 16 → remote_of (sockaddr a) ≡ a
unfolding remote_of sockaddr
remote_of-sockaddr a v w =
    ap (λ x. record { vmid = x; service_id = copy_guid (copy_guid a.service_id) })
      (copy_guid-copy_guid a.vmid v)
    ∙ ap (λ x. record { vmid = a.vmid; service_id = x }) (copy_guid-copy_guid a.service_id w)
