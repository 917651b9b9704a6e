-- ===== src/Stress/OnLinux/Serving.antt =====
-- What a server of the stream test holds open while it runs.
use virtsock.Common.{
  ℕ, ◌≤◌, ◌≡◌, refl, ap, ◌∙◌, Bool, true, false, some, List, ◌∷◌, ◌++◌, Result, ok, err, length,
  count, arith, Result-cases, inl, inr,
}
use virtsock.System.{Kernel, History, >>=-some, accept, or_return}
use virtsock.System.Descriptors.{is_interrupt, open_fds}
use virtsock.System.Methods.{is}
use virtsock.Hvsock.Addr
use virtsock.Hvsock.Linux as Hv
use virtsock.Hvsock.Linux.Listen.{ListenerLeaks, listen-ListenerLeaks, ListenerLeaks-left_open}
use virtsock.Hvsock.Linux.Session as HvSession
use virtsock.Vsock
use virtsock.Vsock.Linux as V
use virtsock.Vsock.Linux.Listen.{ListenLeaks, listen-ListenLeaks, ListenLeaks-left_open}
use virtsock.Vsock.Linux.Session as VSession
use virtsock.Stress.OnLinux.{VmSock, vsock, hvsock}
use virtsock.Stress.OnLinux.Server.{
  Event, begin, events, Served, not_listening_vsock, not_listening_hvsock, on_vsock, on_hvsock,
  after_vsock, after_hvsock, vsock_server, hvsock_server, server,
}
use virtsock.Stress.OnLinux.Requests.{fds, Holds, Opens, events-Leads}

-- What a server holds: the listener and the connections of the requests that are handled, or at most
-- the socket of a `Listen` that has failed.
abbrev pub Owns : Served → History → History → Type 0
Owns (not_listening_vsock e) h g = (ls : List ℕ) × (open_fds g ≡ ls ++ open_fds h) × (length ls ≤ 1)
Owns (not_listening_hvsock e) h g =
    (ls : List ℕ) × (open_fds g ≡ ls ++ open_fds h) × (length ls ≤ 1)
Owns (on_vsock l s) h g = Holds (l.fd ∷ fds V.Conn.fd s.active) (open_fds h) g
Owns (on_hvsock l s) h g = Holds (l.fd ∷ fds Hv.Conn.fd s.active) (open_fds h) g

module _ (k : Kernel) (es : List Event)
    (never : (g : History) (fd : ℕ) → is_interrupt (k.on_close g fd) ≡ false) where
  v_accept-Opens :
      (l : V.Listener) (h : History)
      → (q : Result V.Error V.Conn) × (g : History) × (V.accept k l h ≡ some (q, g))
        × Opens (λ c. c.fd) h q g
  unfolding V.accept open_fds
  v_accept-Opens l h = elim (Result-cases (k.on_accept h l.fd)) [
    | inl (p, taken) ↦ (
      ok (V.new_vsock_conn p.0 (some l.local) (V.sockaddr_to_vsock p.1)),
      accept l.fd (ok p) ∷ h,
      rw (taken, or_return) refl,
      refl,
    )
    | inr (e, failed) ↦ (err (V.bare e), accept l.fd (err e) ∷ h, rw (failed, or_return) refl, refl)
  ]

  hv_accept-Opens :
      (l : Hv.Listener) (h : History)
      → (q : Result Hv.Error Hv.Conn) × (g : History) × (Hv.accept k l h ≡ some (q, g))
        × Opens (λ c. c.fd) h q g
  unfolding Hv.accept open_fds
  hv_accept-Opens l h = elim (Result-cases (k.on_accept h l.fd)) [
    | inl (p, taken) ↦ (
      ok (Hv.new_hvsock_conn p.0 l.local (Hv.remote_of p.1)),
      accept l.fd (ok p) ∷ h,
      rw (taken, or_return) refl,
      refl,
    )
    | inr (e, failed) ↦ (
      err (Hv.failed_accept e l.local),
      accept l.fd (err e) ∷ h,
      rw (failed, or_return) refl,
      refl,
    )
  ]

  vsock_server-Owns :
      (a : Vsock.Addr) (h : History)
      → (r : Served) × (g : History) × (vsock_server k es a h ≡ some (r, g)) × Owns r h g
  unfolding vsock_server VSession.methods
  vsock_server-Owns a h =
      let (q, g, eq, leaks) = listen-ListenLeaks k a.cid a.port h in
      let (r, f, eqs, owns) = after q g leaks in
      (r, f, >>=-some (V.listen k a.cid a.port) _ h eq ∙ eqs, owns)
    where
      after :
          (q : Result V.Error V.Listener) (g : History)
          → ListenLeaks a.cid a.port h q g
          → (r : Served) × (f : History) × (after_vsock k es q g ≡ some (r, f)) × Owns r h f
      after (ok l) g leaks =
          let (t, f, eq, holds) =
            events-Leads k (VSession.methods k) (V.accept k l) never (v_accept-Opens l) (open_fds g)
              es begin g (λ x. omega arith) in
          (
            on_vsock l t,
            f,
            >>=-some (events k (VSession.methods k) (V.accept k l) es begin) _ g eq,
            λ x. omega (arith, holds x, ap (count (is x)) leaks.0),
          )
      after (err e) g leaks = (_, g, refl, ListenLeaks-left_open a.cid a.port h g e leaks)

  hvsock_server-Owns :
      (a : Addr.Addr) (h : History)
      → (r : Served) × (g : History) × (hvsock_server k es a h ≡ some (r, g)) × Owns r h g
  unfolding hvsock_server HvSession.methods
  hvsock_server-Owns a h =
      let (q, g, eq, leaks) = listen-ListenerLeaks k a h in
      let (r, f, eqs, owns) = after q g leaks in (r, f, >>=-some (Hv.listen k a) _ h eq ∙ eqs, owns)
    where
      after :
          (q : Result Hv.Error Hv.Listener) (g : History)
          → ListenerLeaks a h q g
          → (r : Served) × (f : History) × (after_hvsock k es q g ≡ some (r, f)) × Owns r h f
      after (ok l) g leaks =
          let (t, f, eq, holds) =
            events-Leads k (HvSession.methods k) (Hv.accept k l) never (hv_accept-Opens l)
              (open_fds g) es begin g (λ x. omega arith) in
          (
            on_hvsock l t,
            f,
            >>=-some (events k (HvSession.methods k) (Hv.accept k l) es begin) _ g eq,
            λ x. omega (arith, holds x, ap (count (is x)) leaks.0),
          )
      after (err e) g leaks = (_, g, refl, ListenerLeaks-left_open a h g e leaks)

-- A server of the stream test on Linux, over a kernel that does not interrupt `close`, whatever it
-- accepts, and however the ends of the requests fall between: it either has no listener, and then at
-- most one socket is left open by the program that ends, or what is open is what was before, the
-- listener, and one descriptor for each request that is being handled, and so no more than that
-- also when `Accept` has failed.
pub server-Owns :
    (k : Kernel) (es : List Event) (use_hvsock : Bool) (s : VmSock) (h : History)
    → ((g : History) (fd : ℕ) → is_interrupt (k.on_close g fd) ≡ false)
    → (r : Served) × (g : History) × (server k es use_hvsock s h ≡ some (r, g)) × Owns r h g
unfolding server
server-Owns k es use_hvsock (vsock a) h never = vsock_server-Owns k es never a h
server-Owns k es true (hvsock a) h never = hvsock_server-Owns k es never a.hv_addr h
server-Owns k es false (hvsock a) h never = vsock_server-Owns k es never a.v_addr h
