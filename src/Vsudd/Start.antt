-- ===== src/Vsudd/Start.antt =====
-- The loop of `main` of cmd/vsudd/main.go over the forwards: each gets a listener, and then an accept
-- loop of its own. What the `Listen` functions answer is a parameter.
pub mod Order
use virtsock.Common.{ℕ, Bool, false, Option, none, some, List, [], ◌∷◌, ◌++◌, Result, ok, err}
use virtsock.Vsudd.Network.{Target}
use virtsock.Vsudd.Forwards.{Forward, Fatal, listener}

-- The calls of `log.Fatalf`, by the forward that they are about.
pub data StartError : Type 0 where
  rejected : Fatal → StartError
  failed_to_bind : Target → ℕ → StartError

-- The listeners that have an accept loop, in order, with `useHVsock`.
pub record Serving : Type 0 where
  pub listeners : List Target
  pub use_hvsock : Bool

pub data Start : Type 0 where
  waiting : Serving → Start
  died : StartError → Serving → Start

-- The end of one round of the loop. `useHVsock` is set when the listener has been made.
abbrev pub bound : (Serving → Start) → Target → Bool → Option ℕ → Serving → Start
bound next t flag none s = next (record { listeners = s.listeners ++ t ∷ []; use_hvsock = flag })
bound next t flag (some e) s = died (failed_to_bind t e) s

abbrev pub make_listener :
    (Target → Option ℕ) → (Serving → Start) → Result Fatal (Target × Bool) → Serving → Start
make_listener bind next (err e) s = died (rejected e) s
make_listener bind next (ok (t, flag)) s = bound next t flag (bind t) s

-- The loop; `bind` says with which error, if any, `Listen` fails for a target behind those listeners.
pub start_loop : Bool → (List Target → Target → Option ℕ) → List Forward → Serving → Start
start_loop supported bind [] s = waiting s
start_loop supported bind (f ∷ fs) s =
    make_listener (bind s.listeners) (start_loop supported bind fs) (listener supported f) s

unfoldable pub start : Bool → (List Target → Target → Option ℕ) → List Forward → Start
unfolding start_loop
start supported bind fs =
    start_loop supported bind fs (record { listeners = []; use_hvsock = false })
