-- ===== src/Vsudd/OnLinux/Held.antt =====
-- Which descriptors vsudd holds when it has gone through its forwards, and for which of them.
use virtsock.Common.{
  ℕ, ◌≡◌, refl, subst, ◌∙◌, Bool, true, false, inl, inr, Option, none, some, List, [], ◌∷◌, Result,
  ok, err, Text, codes, contains, equal, Bool-cases,
}
use virtsock.System.{Kernel, History, >>=-some}
use virtsock.System.Descriptors.{is_interrupt, open_fds}
use virtsock.Fmt.{ScanError}
use virtsock.Hvsock.Guid.{Guid, from_string}
use virtsock.Hvsock.Addr.{Addr}
use virtsock.Hvsock.Linux as Hv
use virtsock.Hvsock.Linux.Descriptors.{supported-open_fds}
use virtsock.Hvsock.Linux.Listen.{ListenerLeaks, listen-ListenerLeaks}
use virtsock.Vsock.Linux as V
use virtsock.Vsock.Linux.Listen.{ListenLeaks, listen-ListenLeaks}
use virtsock.Vsudd.Network.{Target, hvsock, vsock}
use virtsock.Vsudd.Forwards.{Forward, Fatal, listener, guid_listener}
use virtsock.Vsudd.OnLinux.{
  ListenError, of_hvsock, of_vsock, StartError, rejected, failed_to_bind, Served, hv_result,
  v_result, guid_target, target_of, listen_on, served, opened, serve,
}

-- What is open when the listeners have been made one after the other.
abbrev pub held : List (Target × ℕ) → List ℕ → List ℕ
held [] fds = fds
held ((t, fd) ∷ ls) fds = held ls (fd ∷ fds)

-- What an error of `Listen` leaves open beside `fds`: nothing if no socket was made, else the socket.
abbrev pub Leaves : ListenError → List ℕ → List ℕ → Type 0
Leaves (of_hvsock (Hv.bare e)) fds now = now ≡ fds
Leaves (of_vsock (V.bare e)) fds now = now ≡ fds
Leaves _ fds now = (fd : ℕ) × (now ≡ fd ∷ fds)

abbrev pub AfterListen : Result ListenError ℕ → History → History → Type 0
AfterListen (ok fd) h g = open_fds g ≡ fd ∷ open_fds h
AfterListen (err e) h g = Leaves e (open_fds h) (open_fds g)

abbrev pub AfterFailure : Option StartError → List ℕ → List ℕ → Type 0
AfterFailure none fds now = now ≡ fds
AfterFailure (some (rejected e)) fds now = now ≡ fds
AfterFailure (some (failed_to_bind t e)) fds now = Leaves e fds now

-- A forward's listener is at that target, whatever `Supported` has answered.
abbrev pub Serves : Forward → Target → Bool → Type 0
Serves f t flag = (b : Bool) × (listener b f ≡ ok (t, flag))

-- Why a forward stops the program.
abbrev pub Stops : Forward → StartError → Type 0
Stops f (rejected e) = (b : Bool) × (listener b f ≡ err e)
Stops f (failed_to_bind t e) = (flag : Bool) × Serves f t flag

-- The forwards have their listeners one by one, up to the first that stops the program; `useHVsock`,
-- from `u` on, ends as `v`.
abbrev pub Covers : Bool → List Forward → List (Target × ℕ) → Option StartError → Bool → Type 0
Covers u [] [] none v = v ≡ u
Covers u (f ∷ fs) [] (some e) v = (v ≡ u) × Stops f e
Covers u (f ∷ fs) (l ∷ ls) r v = (flag : Bool) × Serves f l.0 flag × Covers flag fs ls r v
Covers _ _ _ _ _ = ⊥

module _ (k : Kernel)
    (never : (g : History) (fd : ℕ) → is_interrupt (k.on_close g fd) ≡ false) where
  guid_target-listener :
      (s : Text) (p : Guid × Option ScanError) (h : History)
      → (b : Bool) × (g : History) × (guid_target k s p h ≡ some (guid_listener b s p, g))
        × (open_fds g ≡ open_fds h)
  guid_target-listener s (guid, some e) h = (true, h, refl, refl)
  guid_target-listener s (guid, none) h =
      let (b, g, eq, same) = supported-open_fds k h never in
      (b, g, >>=-some (Hv.supported k) _ h eq, same)

  target_of-listener :
      (f : Forward) (h : History)
      → (b : Bool) × (g : History) × (target_of k f h ≡ some (listener b f, g))
        × (open_fds g ≡ open_fds h)
  unfolding target_of listener
  target_of-listener f h = elim (Bool-cases (equal f.net (codes "unix"))) [
    | inr other ↦ (true, h, rw other refl, refl)
    | inl unix ↦ elim (Bool-cases (contains f.vsock_port b'-')) [
      | inr plain ↦ (true, h, rw (unix, plain) refl, refl)
      | inl dash ↦
          let (b, g, eq, same) = guid_target-listener f.vsock_port (from_string f.vsock_port) h in
          (b, g, rw (unix, dash) eq, same)
    ]
  ]

  listen_on-AfterListen :
      (t : Target) (h : History)
      → (r : Result ListenError ℕ) × (g : History) × (listen_on k t h ≡ some (r, g))
        × AfterListen r h g
  unfolding listen_on
  listen_on-AfterListen (hvsock vm service) h =
      let a : Addr = record { vmid = vm; service_id = service } in
      let (q, g, eq, leaks) = listen-ListenerLeaks k a h in
      (hv_result q, g, >>=-some (Hv.listen k a) _ h eq, of_leaks q g leaks)
    where
      of_leaks :
          (q : Result Hv.Error Hv.Listener) (g : History)
          → ListenerLeaks (record { vmid = vm; service_id = service }) h q g
          → AfterListen (hv_result q) h g
      of_leaks (ok l) g leaks = leaks.0
      of_leaks (err (Hv.bare e)) g leaks = leaks
      of_leaks (err (Hv.failed_bind e a)) g leaks = (leaks.0, leaks.1)
      of_leaks (err (Hv.failed_listen e a)) g leaks = (leaks.0, leaks.1)
      of_leaks (err (Hv.failed_connect e a)) g leaks = absurd leaks
      of_leaks (err (Hv.failed_accept e a)) g leaks = absurd leaks
      of_leaks (err (Hv.fcntl e)) g leaks = absurd leaks
  listen_on-AfterListen (vsock cid port) h =
      let (q, g, eq, leaks) = listen-ListenLeaks k cid port h in
      (v_result q, g, >>=-some (V.listen k cid port) _ h eq, of_leaks q g leaks)
    where
      of_leaks :
          (q : Result V.Error V.Listener) (g : History)
          → ListenLeaks cid port h q g
          → AfterListen (v_result q) h g
      of_leaks (ok l) g leaks = leaks.0
      of_leaks (err (V.bare e)) g leaks = leaks
      of_leaks (err (V.failed_bind e c p)) g leaks = leaks
      of_leaks (err (V.failed_listen e c p)) g leaks = leaks
      of_leaks (err (V.failed_connect e c p)) g leaks = absurd leaks
      of_leaks (err (V.create_socket e)) g leaks = absurd leaks
      of_leaks (err (V.failed_close e c)) g leaks = absurd leaks
      of_leaks (err (V.fcntl e)) g leaks = absurd leaks

  -- What is open at the end of the loop, and for whom.
  abbrev Outcome : Bool → List Forward → List ℕ → Served → History → Type 0
  Outcome u fs fds s g =
      AfterFailure s.failure (held s.listeners fds) (open_fds g)
      × Covers u fs s.listeners s.failure s.use_hvsock

  served-Outcome :
      (f : Forward) (fs : List Forward) (u flag b : Bool) (t : Target) (r : Result ListenError ℕ)
      (h g : History)
      → listener b f ≡ ok (t, flag)
      → AfterListen r h g
      → ((v : Bool) (h : History)
          → (s : Served) × (g : History) × (serve k fs v h ≡ some (s, g))
            × Outcome v fs (open_fds h) s g)
      → (s : Served) × (g' : History) × (served k (serve k fs) u t flag r g ≡ some (s, g'))
        × Outcome u (f ∷ fs) (open_fds h) s g'
  served-Outcome f fs u flag b t (err e) h g is left next = (
    record { listeners = []; use_hvsock = u; failure = some (failed_to_bind t e) },
    g,
    refl,
    (left, (refl, (flag, (b, is)))),
  )
  served-Outcome f fs u flag b t (ok fd) h g is own next =
      let (s, g', eq, (open_then, covers)) = next flag g in
      (
        record s { listeners = (t, fd) ∷ s.listeners },
        g',
        >>=-some (serve k fs flag) _ g eq,
        (
          subst (λ x. AfterFailure s.failure (held s.listeners x) (open_fds g')) own open_then,
          (flag, (b, is), covers),
        ),
      )

  opened-Outcome :
      (f : Forward) (fs : List Forward) (u b : Bool) (r : Result Fatal (Target × Bool))
      (h : History)
      → listener b f ≡ r
      → ((v : Bool) (h : History)
          → (s : Served) × (g : History) × (serve k fs v h ≡ some (s, g))
            × Outcome v fs (open_fds h) s g)
      → (s : Served) × (g : History) × (opened k (serve k fs) u r h ≡ some (s, g))
        × Outcome u (f ∷ fs) (open_fds h) s g
  opened-Outcome f fs u b (err e) h is next = (
    record { listeners = []; use_hvsock = u; failure = some (rejected e) },
    h,
    refl,
    (refl, (refl, (b, is))),
  )
  opened-Outcome f fs u b (ok (t, flag)) h is next =
      let (r, g, eq, after) = listen_on-AfterListen t h in
      let (s, g', eq', outcome) = served-Outcome f fs u flag b t r h g is after next in
      (s, g', >>=-some (listen_on k t) _ h eq ∙ eq', outcome)

  serve-Outcome :
      (fs : List Forward) (u : Bool) (h : History)
      → (s : Served) × (g : History) × (serve k fs u h ≡ some (s, g))
        × Outcome u fs (open_fds h) s g
  unfolding serve
  serve-Outcome [] u h =
      (record { listeners = []; use_hvsock = u; failure = none }, h, refl, (refl, refl))
  serve-Outcome (f ∷ fs) u h =
      let (b, g, eq, same) = target_of-listener f h in
      let (s, g', eq', outcome) =
        opened-Outcome f fs u b (listener b f) g refl (serve-Outcome fs) in
      (
        s,
        g',
        >>=-some (target_of k f) _ h eq ∙ eq',
        subst (λ x. Outcome u (f ∷ fs) x s g') same outcome,
      )

-- Over a kernel that does not interrupt `close`, the loop of vsudd over its forwards comes to an end
-- on Linux, whatever the kernel answers. Each forward, in order, has its own listener, at the target
-- that its value stands for, up to the first that stops the program, if one does, because its value
-- is rejected or its listener fails; `useHVsock` is what the last of the listeners sets. What is then
-- open is what was open before and one descriptor for each listener, so no probe of `Supported`
-- stays, and beside that at most the socket of the listener that failed.
pub serve-held :
    (k : Kernel) (fs : List Forward) (h : History)
    → ((g : History) (fd : ℕ) → is_interrupt (k.on_close g fd) ≡ false)
    → (s : Served) × (g : History) × (serve k fs false h ≡ some (s, g))
      × AfterFailure s.failure (held s.listeners (open_fds h)) (open_fds g)
      × Covers false fs s.listeners s.failure s.use_hvsock
serve-held k fs h never =
    let (s, g, eq, outcome) = serve-Outcome k never fs false h in (s, g, eq, outcome.0, outcome.1)
