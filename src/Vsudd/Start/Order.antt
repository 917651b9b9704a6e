-- ===== src/Vsudd/Start/Order.antt =====
-- Which listeners `main` of vsudd has made when it waits, or when it gives up.
use virtsock.Common.{
  ℕ, Bool, false, ◌≡◌, refl, sym, subst, Option, none, some, List, [], ◌∷◌, ◌++◌, Result, ok, err,
  append_assoc, append-nil,
}
use virtsock.Vsudd.Network.{Target}
use virtsock.Vsudd.Forwards.{Forward, Fatal, listener}
use virtsock.Vsudd.Start.{
  StartError, rejected, failed_to_bind, Serving, Start, waiting, died, bound, make_listener,
  start_loop, start,
}

-- The listeners of the forwards, one for each and in order, behind those that there are, with the
-- flag of the last.
pub data Opens (supported : Bool) (bind : List Target → Target → Option ℕ) (s : Serving)
    : List Forward → Serving → Type 0 where
  nothing : Opens supported bind s [] s
  one_more :
      {fs : List Forward} {t : Serving} (f : Forward) (target : Target) (flag : Bool)
      → Opens supported bind s fs t
      → listener supported f ≡ ok (target, flag)
      → bind t.listeners target ≡ none
      → Opens supported bind s
          (fs ++ f ∷ [])
          (record { listeners = t.listeners ++ target ∷ []; use_hvsock = flag })

-- Why a forward stops the program.
pub data Stops (supported : Bool) (bind : List Target → Target → Option ℕ) (t : Serving)
    (f : Forward) : StartError → Type 0 where
  is_rejected : (e : Fatal) → listener supported f ≡ err e → Stops supported bind t f (rejected e)
  is_not_bound :
      (target : Target) (flag : Bool) (e : ℕ)
      → listener supported f ≡ ok (target, flag)
      → bind t.listeners target ≡ some e
      → Stops supported bind t f (failed_to_bind target e)

-- What there is of the forwards at the end.
abbrev pub Outcome :
    Bool → (List Target → Target → Option ℕ) → Serving → List Forward → Start → Type 0
Outcome supported bind s fs (waiting t) = Opens supported bind s fs t
Outcome supported bind s fs (died e t) =
    (pre post : List Forward) × (f : Forward) × (fs ≡ pre ++ f ∷ post)
    × Opens supported bind s pre t
    × Stops supported bind t f e

module _ (supported : Bool) (bind : List Target → Target → Option ℕ) (s : Serving) where
  loop-Outcome :
      (done fs : List Forward) (t : Serving)
      → Opens supported bind s done t
      → Outcome supported bind s (done ++ fs) (start_loop supported bind fs t)
  unfolding start_loop
  loop-Outcome done [] t opens =
      subst (λ x. Opens supported bind s x t) (sym (append-nil done)) opens
  loop-Outcome done (f ∷ fs) t opens =
      by_listener (listener supported f) refl (λ target flag is free.
        let more : Serving = record { listeners = t.listeners ++ target ∷ []; use_hvsock = flag } in
        subst (λ x. Outcome supported bind s x (start_loop supported bind fs more))
          (append_assoc done (f ∷ []) fs)
          (loop-Outcome (done ++ f ∷ []) fs _ (one_more f target flag opens is free)))
    where
      Next : Type 0
      Next =
          (target : Target) (flag : Bool)
          → listener supported f ≡ ok (target, flag)
          → bind t.listeners target ≡ none
          → Outcome supported bind s (done ++ f ∷ fs) (
              start_loop supported bind fs
                (record { listeners = t.listeners ++ target ∷ []; use_hvsock = flag }))

      by_bind :
          (target : Target) (flag : Bool) (b : Option ℕ)
          → listener supported f ≡ ok (target, flag)
          → bind t.listeners target ≡ b
          → Next
          → Outcome supported bind s
              (done ++ f ∷ fs)
              (bound (start_loop supported bind fs) target flag b t)
      by_bind target flag none is free more = more target flag is free
      by_bind target flag (some e) is taken more =
          (done, fs, f, refl, opens, is_not_bound target flag e is taken)

      by_listener :
          (r : Result Fatal (Target × Bool))
          → listener supported f ≡ r
          → Next
          → Outcome supported bind s
              (done ++ f ∷ fs)
              (make_listener (bind t.listeners) (start_loop supported bind fs) r t)
      by_listener (err e) is more = (done, fs, f, refl, opens, is_rejected e is)
      by_listener (ok (target, flag)) is more =
          by_bind target flag (bind t.listeners target) is refl more

-- When `main` waits, it has made one listener for each `-inport`, in the order of the command line,
-- where the value says, and `useHVsock` is what the last of them sets, whatever the others are. When
-- it gives up, it has made those of the forwards before one that is rejected or cannot be bound, and
-- reports that one.
pub start-Outcome :
    (supported : Bool) (bind : List Target → Target → Option ℕ) (fs : List Forward)
    → Outcome supported bind
        (record { listeners = []; use_hvsock = false })
        fs
        (start supported bind fs)
unfolding start
start-Outcome supported bind fs =
    loop-Outcome supported bind (record { listeners = []; use_hvsock = false }) [] fs _ nothing
