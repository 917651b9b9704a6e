-- ===== src/Hvsock/Windows/Ports/Single.antt =====
-- All connections share one port, and one processor reads it.
use virtsock.Common.{
  ℕ, ◌≡◌, refl, sym, ap, subst, Bool, true, false, Option, none, some, List, [], ◌∷◌, Result, ok,
  err, All, ◌⊎◌, if◌then◌else◌, inl, inr,
}
use virtsock.System.{Errno}
use virtsock.Hvsock.Windows.Ports.{
  Ports, fresh, Calls, init_io, do_once, set_modes, tied, after_init, new_conn, Made, then_rest,
  new_conns,
}

-- Some tie is of that handle.
abbrev pub IsTied : ℕ → List (ℕ × ℕ) → Type 0
IsTied fd [] = ⊥
IsTied fd (t ∷ ts) = (t.0 ≡ fd) ⊎ IsTied fd ts

-- A connection that was returned has its handle tied.
abbrev pub HasTie : List (ℕ × ℕ) → Result Errno ℕ → Type 0
HasTie ts (ok fd) = IsTied fd ts
HasTie ts (err e) = Unit

-- Before the first connection nothing has been done.
abbrev pub IsUntouched : Bool → Ports → Type 0
IsUntouched true s = Unit
IsUntouched false s = s ≡ fresh

-- One processor reads the port to which every handle is tied, from the first connection on.
pub record IsShared (rs : List (Result Errno ℕ)) (s : Ports) : Type 0 where
  pub processors : s.processors ≡ (if s.once then s.port ∷ [] else [])
  pub ties : All (λ t. t.1 ≡ s.port) s.ties
  pub untouched : IsUntouched s.once s
  pub results : All (HasTie s.ties) rs

fresh-IsShared : IsShared [] fresh
fresh-IsShared = record { processors = refl; ties = tt; untouched = refl; results = tt }

HasTie-cons :
    (t : ℕ × ℕ) (ts : List (ℕ × ℕ)) (rs : List (Result Errno ℕ))
    → All (HasTie ts) rs
    → All (HasTie (t ∷ ts)) rs
HasTie-cons t ts [] all = tt
HasTie-cons t ts (ok fd ∷ rs) (has, all) = (inr has, HasTie-cons t ts rs all)
HasTie-cons t ts (err e ∷ rs) (has, all) = (tt, HasTie-cons t ts rs all)

-- What comes of the calls, by their results.
abbrev pub Outcome : Calls → Option Made → Type 0
Outcome k (some (rs, s)) = IsShared rs s
Outcome k none = (e : Errno) × (k.on_create fresh ≡ err e)

with_result :
    {rs : List (Result Errno ℕ)} {s : Ports} (r : Result Errno ℕ)
    → HasTie s.ties r
    → IsShared rs s
    → IsShared (r ∷ rs) s
with_result r has v = record {
  processors = v.processors;
  ties = v.ties;
  untouched = v.untouched;
  results = (has, v.results);
}

-- Behind `initIo`.
init_io-IsShared :
    (h : ℕ) (rs : List (Result Errno ℕ)) (s : Ports)
    → s.once ≡ false
    → IsShared rs s
    → IsShared rs (record s { port = h; processors = h ∷ s.processors; once = true })
init_io-IsShared h rs s is v =
    let same : s ≡ fresh = subst (λ b. IsUntouched b s) is v.untouched in
    record {
      processors = ap (λ x. h ∷ x.processors) same;
      ties = subst (λ x. All (λ t. t.1 ≡ h) x.ties) (sym same) tt;
      untouched = tt;
      results = v.results;
    }

module _ (k : Calls) where
  set_modes-IsShared :
      (fd : ℕ) (a : Option Errno) (rs : List (Result Errno ℕ)) (s : Ports)
      → IsShared rs s
      → IsTied fd s.ties
      → IsShared ((set_modes fd a s).0 ∷ rs) (set_modes fd a s).1
  set_modes-IsShared fd none rs s v has = with_result (ok fd) has v
  set_modes-IsShared fd (some e) rs s v has = with_result (err e) tt v

  tied-IsShared :
      (fd : ℕ) (a : Option Errno) (rs : List (Result Errno ℕ)) (s : Ports)
      → s.once ≡ true
      → IsShared rs s
      → IsShared ((tied k fd a s).0 ∷ rs) (tied k fd a s).1
  tied-IsShared fd (some e) rs s started v = with_result (err e) tt v
  tied-IsShared fd none rs s started v =
      let t : Ports = record s { ties = (fd, s.port) ∷ s.ties } in
      set_modes-IsShared fd (k.on_set_modes t fd) rs t
        (record {
          processors = v.processors;
          ties = (refl, v.ties);
          untouched = subst (λ b. IsUntouched b t) (sym started) tt;
          results = HasTie-cons (fd, s.port) s.ties rs v.results;
        })
        (inl refl)

  new_conn-Outcome :
      (fds : List ℕ) (fd : ℕ) (rs : List (Result Errno ℕ)) (s : Ports)
      → IsShared rs s
      → ((r : Result Errno ℕ) (t : Ports)
          → IsShared (r ∷ rs) t
          → Outcome k (new_conns k fds (r ∷ rs, t)))
      → Outcome k (then_rest (new_conns k fds) rs (new_conn k fd s))
  unfolding new_conn
  new_conn-Outcome fds fd rs s v next = once s.once refl
    where
      on_port :
          (t : Ports)
          → t.once ≡ true
          → IsShared rs t
          → Outcome k (then_rest (new_conns k fds) rs (after_init k fd (some t)))
      on_port t started w =
          let r = tied k fd (k.on_tie t fd t.port) t in
          next r.0 r.1 (tied-IsShared fd (k.on_tie t fd t.port) rs t started w)

      created :
          (c : Result Errno ℕ)
          → s.once ≡ false
          → k.on_create s ≡ c
          → Outcome k (then_rest (new_conns k fds) rs (after_init k fd (init_io c s)))
      created (err e) is failed = (
        e,
        subst (λ x. k.on_create x ≡ err e) (subst (λ b. IsUntouched b s) is v.untouched) failed,
      )
      created (ok h) is made = on_port _ refl (init_io-IsShared h rs s is v)

      once :
          (b : Bool)
          → s.once ≡ b
          → Outcome k (then_rest (new_conns k fds) rs (after_init k fd (do_once k b s)))
      once true is = on_port s is v
      once false is = created (k.on_create s) is refl

  new_conns-Outcome :
      (fds : List ℕ) (rs : List (Result Errno ℕ)) (s : Ports)
      → IsShared rs s
      → Outcome k (new_conns k fds (rs, s))
  unfolding new_conns
  new_conns-Outcome [] rs s v = v
  new_conns-Outcome (fd ∷ fds) rs s v =
      new_conn-Outcome fds fd rs s v (λ r t w. new_conns-Outcome fds (r ∷ rs) t w)

-- However many connections are made, and whichever of them fail: no completion
-- port is made before the first of them, and then one, which one processor reads; and every handle that has been tied is tied to that port, the handle of each
-- connection that was returned among them. The program panics only if the port cannot be made for
-- the first connection.
pub new_conns-IsShared : (k : Calls) (fds : List ℕ) → Outcome k (new_conns k fds ([], fresh))
new_conns-IsShared k fds = new_conns-Outcome k fds [] fresh fresh-IsShared
