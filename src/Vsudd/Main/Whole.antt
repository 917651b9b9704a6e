-- ===== src/Vsudd/Main/Whole.antt =====
-- What `main` of vsudd has done when it waits, or when it exits.
use virtsock.Common.{ℕ, ◌≡◌, Bool, false, Option, List, [], ◌∷◌, ◌++◌, ok, err, Text, length}
use virtsock.Vsudd.Network.{Target}
use virtsock.Vsudd.Forwards.{Forward, set_value}
use virtsock.Vsudd.Start.{Serving, Start, waiting, died}
use virtsock.Vsudd.Start.Order.{Outcome}
use virtsock.Vsudd.Main.{
  Host, initial, Flags, parse_inports, bad_flag, not_set_up, not_started, nothing_running, Main,
  exited, at_wait, is_given,
}
use virtsock.Vsudd.Main.SetUp.{IsSetUp, IsAttached, Fails}

abbrev pub no_serving : Serving
no_serving = record { listeners = []; use_hvsock = false }

-- What there is at the end, for each way to end.
abbrev pub MainOutcome : Host → Bool → (List Target → Target → Option ℕ) → Flags → Main → Type 0
MainOutcome host supported bind flags (exited (bad_flag e) p r) =
    ((pre post : List Text) × (v : Text) × (fs : List Forward) × (flags.inports ≡ pre ++ v ∷ post)
      × (parse_inports [] pre ≡ ok fs)
      × (set_value fs v ≡ err e))
    × (p ≡ initial)
    × (r ≡ nothing_running)
MainOutcome host supported bind flags (exited (not_set_up e) p r) =
    Fails host flags.pid_file flags.detach e × IsAttached p × (r ≡ nothing_running)
MainOutcome host supported bind flags (exited (not_started e) p r) =
    IsSetUp host flags.pid_file flags.detach p
    × (r.forwards_syslog ≡ is_given flags.syslog)
    × (fs : List Forward) × (parse_inports [] flags.inports ≡ ok fs)
    × Outcome supported bind no_serving fs (died e r.serving)
MainOutcome host supported bind flags (at_wait p r) =
    IsSetUp host flags.pid_file flags.detach p
    × (r.forwards_syslog ≡ is_given flags.syslog)
    × ((fs : List Forward) × (parse_inports [] flags.inports ≡ ok fs)
        × Outcome supported bind no_serving fs (waiting r.serving))
    × (length r.serving.listeners ≡ length flags.inports)
