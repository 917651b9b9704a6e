-- ===== src/Hvsock/Linux/Accept.antt =====
-- `Accept` of pkg/hvsock on Linux.
use virtsock.Common.{ℕ, ◌≡◌, refl, ap, ◌∷◌, some, ok, length, ◌∙◌}
use virtsock.System.{Kernel, History, SockAddr, hv, ◌>>=◌, or_return}
use virtsock.System
use virtsock.System.Descriptors.{open_fds}
use virtsock.Hvsock.Addr.{Addr, copy_guid, copy_guid-copy_guid}
use virtsock.Hvsock.Linux.{Listener, accept, sockaddr, remote_of, new_hvsock_conn}

-- An address written to a `sockaddr_hv` and read back from one.
remote_of-sockaddr :
    (a : Addr) → length a.vmid ≡ 16 → length a.service_id ≡ 16 → remote_of (sockaddr a) ≡ a
unfolding remote_of sockaddr
remote_of-sockaddr a v w =
    ap (λ x. record { vmid = x; service_id = copy_guid (copy_guid a.service_id) })
      (copy_guid-copy_guid a.vmid v)
    ∙ ap (λ x. record { vmid = a.vmid; service_id = x }) (copy_guid-copy_guid a.service_id w)

-- When the kernel accepts a peer on a Hyper-V listener and fills in the structure that stands for
-- the peer's address, of two GUIDs of sixteen bytes, `Accept` returns a connection that owns the
-- new descriptor and no other, between the listener's address and exactly the peer's.
pub accept-sockaddr :
    (k : Kernel) (v : Listener) (h : History) (fd : ℕ) (a : Addr)
    → length a.vmid ≡ 16
    → length a.service_id ≡ 16
    → k.on_accept h v.fd ≡ ok (fd, sockaddr a)
    → (g : History) × (accept k v h ≡ some (ok (new_hvsock_conn fd v.local a), g))
      × (open_fds g ≡ fd ∷ open_fds h)
unfolding accept open_fds
accept-sockaddr k v h fd a l m taken =
    let g = System.accept v.fd (ok (fd, sockaddr a)) ∷ h in
    (
      g,
      rw (taken, accept)
          (ap (λ x. some (ok (new_hvsock_conn fd v.local x), g)) (remote_of-sockaddr a l m)),
      refl,
    )
