-- ===== src/Vsudd/Main/SetUp.antt =====
-- What the pid file and the standard streams are when `main` of vsudd goes on to its goroutines.
use virtsock.Common.{
  ℕ, ◌^◌, ◌<◌, ◌≡◌, ◌≢◌, refl, ap, ◌∙◌, Bool, true, false, Option, none, some, [], ◌∷◌, ok, Text,
  if◌then◌else◌,
}
use virtsock.System.{Errno}
use virtsock.Strings.{decimal, parse_uint, parse_uint-decimal}
use virtsock.Vsudd.Main.{
  Host, Stream, inherited, standard_error, system_log, Process, initial, SetUpError,
  pid_file_not_opened, pid_not_written, syslog_not_opened, null_not_opened, opened_pid_file,
  redirected, detach_if, detach_from, set_up, pid_written, then_detach,
}

-- A write that gives no error has written everything.
abbrev pub IsHonest : Host → Type 0
IsHonest host = (s t : Text) → host.write s ≡ (t, none) → t ≡ s

-- Whether a stream is redirected.
abbrev pub stream : Host → Bool → ℕ → Stream
stream host detach fd = if detach then redirected (host.dup2 fd) inherited else inherited

-- What the pid file holds, by its path.
abbrev pub PidFile : Host → Text → Option Text → Type 0
PidFile host [] held = held ≡ none
PidFile host (c ∷ path) held = (t : Text) × (held ≡ some t) × (parse_uint t ≡ ok host.pid)

-- The pid file holds the number of the process, if one was asked for, and all that is detached is.
pub record IsSetUp (host : Host) (pid_file : Text) (detach : Bool) (p : Process) : Type 0 where
  pub pid : PidFile host pid_file p.pid_file
  pub stdin : p.stdin ≡ stream host detach 0
  pub stdout : p.stdout ≡ stream host detach 1
  pub stderr : p.stderr ≡ stream host detach 2
  pub log : p.log ≡ (if detach then system_log else standard_error)

-- Nothing has been detached.
pub record IsAttached (p : Process) : Type 0 where
  pub stdin : p.stdin ≡ inherited
  pub stdout : p.stdout ≡ inherited
  pub stderr : p.stderr ≡ inherited
  pub log : p.log ≡ standard_error

abbrev pub Fails : Host → Text → Bool → SetUpError → Type 0
Fails host pid_file detach (pid_file_not_opened e) = (pid_file ≢ []) × (host.open_pid_file ≡ some e)
Fails host pid_file detach (pid_not_written e) =
    (pid_file ≢ []) × (t : Text) × (host.write (decimal host.pid) ≡ (t, some e))
Fails host pid_file detach (syslog_not_opened e) = (detach ≡ true) × (host.open_syslog ≡ some e)
Fails host pid_file detach (null_not_opened e) =
    (detach ≡ true) × (host.open_syslog ≡ none) × (host.open_null ≡ some e)

abbrev pub SetUpOutcome : Host → Text → Bool → Option SetUpError × Process → Type 0
SetUpOutcome host pid_file detach (none, p) = IsSetUp host pid_file detach p
SetUpOutcome host pid_file detach (some e, p) = Fails host pid_file detach e × IsAttached p

initial-IsAttached : (t : Option Text) → IsAttached (record initial { pid_file = t })
initial-IsAttached t = record { stdin = refl; stdout = refl; stderr = refl; log = refl }

module _ (host : Host) where
  IsSetUp-IsAttached :
      {pid_file : Text} {p : Process} → IsSetUp host pid_file false p → IsAttached p
  IsSetUp-IsAttached v = record {
    stdin = v.stdin;
    stdout = v.stdout;
    stderr = v.stderr;
    log = v.log;
  }

  initial-IsSetUp : IsSetUp host [] false initial
  initial-IsSetUp = record { pid = refl; stdin = refl; stdout = refl; stderr = refl; log = refl }

  detach_from-Outcome :
      (pid_file : Text) (p : Process) (a b : Option Errno)
      → host.open_syslog ≡ a
      → host.open_null ≡ b
      → IsSetUp host pid_file false p
      → SetUpOutcome host pid_file true (detach_from host a b p)
  detach_from-Outcome pid_file p (some e) b is_a is_b v = ((refl, is_a), IsSetUp-IsAttached v)
  detach_from-Outcome pid_file p none (some e) is_a is_b v =
      ((refl, is_a, is_b), IsSetUp-IsAttached v)
  detach_from-Outcome pid_file p none none is_a is_b v = record {
    pid = v.pid;
    stdin = ap (redirected (host.dup2 0)) v.stdin;
    stdout = ap (redirected (host.dup2 1)) v.stdout;
    stderr = ap (redirected (host.dup2 2)) v.stderr;
    log = refl;
  }

  detach_if-Outcome :
      (pid_file : Text) (detach : Bool) (p : Process)
      → IsSetUp host pid_file false p
      → SetUpOutcome host pid_file detach (detach_if host detach p)
  detach_if-Outcome pid_file false p v = v
  detach_if-Outcome pid_file true p v =
      detach_from-Outcome pid_file p host.open_syslog host.open_null refl refl v

  module _ (honest : IsHonest host) (small : host.pid < 2 ^ 32) where
    pid_written-Outcome :
        (c : ℕ) (path : Text) (detach : Bool) (r : Text × Option Errno)
        → host.write (decimal host.pid) ≡ r
        → SetUpOutcome host (c ∷ path) detach (then_detach host detach (pid_written initial r))
    pid_written-Outcome c path detach (t, none) is =
        let all : t ≡ decimal host.pid = honest (decimal host.pid) t is in
        detach_if-Outcome (c ∷ path) detach (record initial { pid_file = some t })
          (record {
            pid = (t, refl, ap parse_uint all ∙ parse_uint-decimal host.pid small);
            stdin = refl;
            stdout = refl;
            stderr = refl;
            log = refl;
          })
    pid_written-Outcome c path detach (t, some e) is =
        ((λ not. cc, t, is), initial-IsAttached (some t))

    opened-Outcome :
        (c : ℕ) (path : Text) (detach : Bool) (a : Option Errno)
        → host.open_pid_file ≡ a
        → SetUpOutcome host
            (c ∷ path)
            detach
            (then_detach host detach (opened_pid_file host a initial))
    opened-Outcome c path detach (some e) is = ((λ not. cc, is), initial-IsAttached none)
    opened-Outcome c path detach none is =
        pid_written-Outcome c path detach (host.write (decimal host.pid)) refl

    -- Whatever the two blocks do, they end as `SetUpOutcome` says.
    pub set_up-Outcome :
        (pid_file : Text) (detach : Bool)
        → SetUpOutcome host pid_file detach (set_up host pid_file detach initial)
    set_up-Outcome [] detach = detach_if-Outcome [] detach initial initial-IsSetUp
    set_up-Outcome (c ∷ path) detach = opened-Outcome c path detach host.open_pid_file refl
