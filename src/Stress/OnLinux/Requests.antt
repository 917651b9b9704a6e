-- ===== src/Stress/OnLinux/Requests.antt =====
-- What a listener and the requests that it has accepted hold open, over either package.
use virtsock.Common.{
  ℕ, zero, suc, ◌+◌, ◌≡◌, refl, ap, ◌∙◌, Bool, true, false, Option, none, some, List, [], ◌∷◌,
  Result, ok, err, count, arith,
}
use virtsock.System.{Kernel, History, Run, >>=-some, close}
use virtsock.System.Descriptors.{is_interrupt, open_fds}
use virtsock.System.Methods.{Methods, is, erase-balance}
use virtsock.Stress.OnLinux.Server.{
  Event, accepts, finishes, State, kept, take_out, accepted, finish, event, if_running, events,
}

-- The descriptors of the connections.
abbrev pub fds : {C : Type 0} → (C → ℕ) → List (ℕ × C) → List ℕ
fds fd [] = []
fds fd ((n, c) ∷ cs) = fd c ∷ fds fd cs

-- What is open is what was, and what the connections own.
abbrev pub Holds : List ℕ → List ℕ → History → Type 0
Holds owned base h = (x : ℕ) → count (is x) (open_fds h) ≡ count (is x) owned + count (is x) base

-- One request taken out of those that are handled.
abbrev Splits : {C : Type 0} → (C → ℕ) → List (ℕ × C) → Option ((ℕ × C) × List (ℕ × C)) → Type 0
Splits fd cs none = Unit
Splits fd cs (some (c, others)) =
    (x : ℕ) → count (is x) (fds fd cs) ≡ is x (fd c.1) + count (is x) (fds fd others)

kept-Splits :
    {C : Type 0} (fd : C → ℕ) (c : ℕ × C) (cs : List (ℕ × C)) (r : Option ((ℕ × C) × List (ℕ × C)))
    → Splits fd cs r
    → Splits fd (c ∷ cs) (kept c r)
kept-Splits fd c cs none v = tt
kept-Splits fd c cs (some (d, others)) v = λ x. omega (arith, v x)

take_out-Splits :
    {C : Type 0} (fd : C → ℕ) (i : ℕ) (cs : List (ℕ × C)) → Splits fd cs (take_out i cs)
take_out-Splits fd i [] = tt
take_out-Splits fd zero (c ∷ cs) = λ x. refl
take_out-Splits fd (suc i) (c ∷ cs) = kept-Splits fd c cs (take_out i cs) (take_out-Splits fd i cs)

-- What `Accept` opens.
abbrev pub Opens : {C E : Type 0} → (C → ℕ) → History → Result E C → History → Type 0
Opens fd h (ok c) g = open_fds g ≡ fd c ∷ open_fds h
Opens fd h (err e) g = open_fds g ≡ open_fds h

module _ {C E : Type 0} (k : Kernel) (o : Methods k C E) (take : Run (Result E C))
    (never : (g : History) (fd : ℕ) → is_interrupt (k.on_close g fd) ≡ false)
    (opens : (h : History)
      → (q : Result E C) × (g : History) × (take h ≡ some (q, g)) × Opens o.fd h q g)
    (base : List ℕ) where
  abbrev pub Leads : Run (State C) → History → Type 0
  Leads m h = (t : State C) × (g : History) × (m h ≡ some (t, g)) × Holds (fds o.fd t.active) base g

  accepts-Leads :
      (s : State C) (h : History)
      → Holds (fds o.fd s.active) base h
      → Leads (event k o take accepts s) h
  accepts-Leads s h v =
      let (q, g, eq, opened) = opens h in (accepted q s, g, >>=-some take _ h eq, holds q g opened)
    where
      holds :
          (q : Result E C) (g : History)
          → Opens o.fd h q g
          → Holds (fds o.fd (accepted q s).active) base g
      holds (ok c) g opened x = ap (count (is x)) opened ∙ omega (arith, v x)
      holds (err e) g opened x = ap (count (is x)) opened ∙ v x

  finish-Leads :
      (s : State C) (h : History) (r : Option ((ℕ × C) × List (ℕ × C)))
      → Holds (fds o.fd s.active) base h
      → Splits o.fd s.active r
      → Leads (finish k o take s r) h
  unfolding open_fds
  finish-Leads s h none v splits = (s, h, refl, v)
  finish-Leads s h (some (c, others)) v splits =
      let fd = o.fd c.1 in
      (
        record s { active = others },
        close fd (k.on_close h fd) ∷ h,
        rw (o.close_is false c.1) refl,
        λ x. rw (never h fd) (
            omega (
              arith,
              erase-balance fd x (open_fds h) (fds o.fd others) base
                  (λ y. omega (arith, v y, splits y)),
            )),
      )

  if_running-Leads :
      (b : Bool) (e : Event) (s : State C) (h : History)
      → Holds (fds o.fd s.active) base h
      → Leads (if_running k o take b e s) h
  if_running-Leads true e s h v = (s, h, refl, v)
  if_running-Leads false accepts s h v = accepts-Leads s h v
  if_running-Leads false (finishes i) s h v =
      finish-Leads s h (take_out i s.active) v (take_out-Splits o.fd i s.active)

  pub events-Leads :
      (es : List Event) (s : State C) (h : History)
      → Holds (fds o.fd s.active) base h
      → Leads (events k o take es s) h
  unfolding events
  events-Leads [] s h v = (s, h, refl, v)
  events-Leads (e ∷ es) s h v =
      let (t, g, eq, w) = if_running-Leads s.fatal e s h v in
      let (u, f, eqs, z) = events-Leads es t g w in
      (u, f, >>=-some (if_running k o take s.fatal e s) _ h eq ∙ eqs, z)
