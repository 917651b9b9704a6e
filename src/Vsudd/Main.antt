-- ===== src/Vsudd/Main.antt =====
-- `main` of cmd/vsudd/main.go as a whole: the flags, the pid file, detaching from the terminal, the
-- syslog forwarder and the forwards. What the operating system answers is a parameter.
pub mod SetUp
pub mod Whole
use virtsock.Common.{
  ℕ, ◌+◌, Bool, true, false, Option, none, some, List, [], ◌∷◌, Result, ok, err, Text, length,
  ◌>>=◌, if◌then◌else◌,
}
use virtsock.System.{Errno}
use virtsock.Strings.{decimal}
use virtsock.Vsudd.Network.{Target}
use virtsock.Vsudd.Forwards.{Forward, SetError, set_value}
use virtsock.Vsudd.Start.{StartError, Serving, Start, waiting, died, start}

-- `write` gives what of a text reaches the pid file, and the error; `dup2` copies the descriptor of
-- /dev/null onto another, or fails.
pub record Host : Type 0 where
  pub pid : ℕ
  pub open_pid_file : Option Errno
  pub write : Text → Text × Option Errno
  pub open_syslog : Option Errno
  pub open_null : Option Errno
  pub dup2 : ℕ → Option Errno

pub data Stream : Type 0 where
  inherited null : Stream

pub data LogOutput : Type 0 where
  standard_error system_log : LogOutput

-- The standard streams, the output and the flags of package log, and what the pid file holds, if it
-- has been opened.
pub record Process : Type 0 where
  pub stdin : Stream
  pub stdout : Stream
  pub stderr : Stream
  pub log : LogOutput
  pub log_flags : ℕ
  pub pid_file : Option Text

-- Behind `log.SetFlags(log.LstdFlags)`.
abbrev pub initial : Process
initial = record {
  stdin = inherited;
  stdout = inherited;
  stderr = inherited;
  log = standard_error;
  log_flags = 3;
  pid_file = none;
}

pub data SetUpError : Type 0 where
  pid_file_not_opened pid_not_written syslog_not_opened null_not_opened : Errno → SetUpError

-- Behind `Fprintf`.
abbrev pub pid_written : Process → Text × Option Errno → Option SetUpError × Process
pid_written p (reached, none) = (none, record p { pid_file = some reached })
pid_written p (reached, some e) = (some (pid_not_written e), record p { pid_file = some reached })

-- Behind `OpenFile`.
abbrev pub opened_pid_file : Host → Option Errno → Process → Option SetUpError × Process
opened_pid_file host (some e) p = (some (pid_file_not_opened e), p)
opened_pid_file host none p = pid_written p (host.write (decimal host.pid))

-- The block `if pidfile != ""`.
abbrev pub write_pid_file : Host → Text → Process → Option SetUpError × Process
write_pid_file host [] p = (none, p)
write_pid_file host (c ∷ path) p = opened_pid_file host host.open_pid_file p

-- A stream behind `Dup2`, whose error is not looked at.
abbrev pub redirected : Option Errno → Stream → Stream
redirected none s = null
redirected (some e) s = s

-- The block `if detach`.
abbrev pub detach_from : Host → Option Errno → Option Errno → Process → Option SetUpError × Process
detach_from host (some e) _ p = (some (syslog_not_opened e), p)
detach_from host none (some e) p = (some (null_not_opened e), p)
detach_from host none none p = (
  none,
  record p {
    stdin = redirected (host.dup2 0) p.stdin;
    stdout = redirected (host.dup2 1) p.stdout;
    stderr = redirected (host.dup2 2) p.stderr;
    log = system_log;
    log_flags = 0;
  },
)

abbrev pub detach_if : Host → Bool → Process → Option SetUpError × Process
detach_if host false p = (none, p)
detach_if host true p = detach_from host host.open_syslog host.open_null p

-- Both blocks, the second if the first has not failed.
abbrev pub then_detach : Host → Bool → Option SetUpError × Process → Option SetUpError × Process
then_detach host detach (some e, p) = (some e, p)
then_detach host detach (none, p) = detach_if host detach p

abbrev pub set_up : Host → Text → Bool → Process → Option SetUpError × Process
set_up host pid_file detach p = then_detach host detach (write_pid_file host pid_file p)

-- The flags as they are given; `-inport` any number of times.
pub record Flags : Type 0 where
  pub inports : List Text
  pub syslog : Text
  pub detach : Bool
  pub pid_file : Text

-- `flag.Parse`, which calls `Set` for each `-inport`.
unfoldable pub parse_inports : List Forward → List Text → Result SetError (List Forward)
parse_inports fs [] = ok fs
parse_inports fs (v ∷ vs) = do gs ← set_value fs v; parse_inports gs vs

-- Why the program exits: a flag, which package flag reports, or a call of `log.Fatalln`.
pub data Exit : Type 0 where
  bad_flag : SetError → Exit
  not_set_up : SetUpError → Exit
  not_started : StartError → Exit

-- The goroutines that there are besides `main`.
pub record Running : Type 0 where
  pub forwards_syslog : Bool
  pub serving : Serving

abbrev pub nothing_running : Running
nothing_running = record {
  forwards_syslog = false;
  serving = record { listeners = []; use_hvsock = false };
}

pub data Main : Type 0 where
  exited : Exit → Process → Running → Main
  at_wait : Process → Running → Main

-- The test `syslogFwd != ""`.
abbrev pub is_given : Text → Bool
is_given [] = false
is_given (c ∷ s) = true

abbrev pub started : Process → Bool → Start → Main
started p syslog (waiting s) = at_wait p (record { forwards_syslog = syslog; serving = s })
started p syslog (died e s) =
    exited (not_started e) p (record { forwards_syslog = syslog; serving = s })

module _ (host : Host) (supported : Bool) (bind : List Target → Target → Option ℕ) where
  abbrev pub run : Flags → List Forward → Option SetUpError × Process → Main
  run flags fs (some e, p) = exited (not_set_up e) p nothing_running
  run flags fs (none, p) = started p (is_given flags.syslog) (start supported bind fs)

  abbrev pub parsed : Flags → Result SetError (List Forward) → Main
  parsed flags (err e) = exited (bad_flag e) initial nothing_running
  parsed flags (ok fs) = run flags fs (set_up host flags.pid_file flags.detach initial)

  unfoldable pub main : Flags → Main
  main flags = parsed flags (parse_inports [] flags.inports)
