-- ===== src/Tests/Calls.antt =====
-- The methods of connections of the two packages on Linux, at a concrete kernel.
use virtsock.Common.{◌≡◌, refl, true, none, some, List, [], ◌∷◌, Result, ok, length, arith, ◌+◌}
use virtsock.System.{shutdown, shut_rd, close, dup_cloexec, Kernel, History}
use virtsock.System.Descriptors.{IsPatient}
use virtsock.System.Methods.{Method, to_close, to_file, to_close_read, fresh, call, calls}
use virtsock.Hvsock.Guid.{template}
use virtsock.Hvsock.Addr.{Addr, guid_parent}
use virtsock.Hvsock.Linux as Hv
use virtsock.Hvsock.Linux.Session as HvSession
use virtsock.Vsock.Linux as V
use virtsock.Vsock.Linux.Session as VSession
use virtsock.Tests.Kernels.{moody}

-- A kernel that connects at once and numbers what it opens.
abbrev kind : Kernel
kind = record moody { on_connect = λ h fd sa. none; on_dup_cloexec = λ h fd. ok (100 + length h) }

kind-IsPatient : IsPatient kind 0
kind-IsPatient = record { connects = λ h fd sa le e. cc; closes = λ h fd le e. cc }

-- A file is made before the connection is closed twice, and the reading half is shut down then.
abbrev some_calls : List Method
some_calls = to_file ∷ to_close ∷ to_close ∷ to_close_read ∷ []

abbrev parent_template : Addr
parent_template = record { vmid = guid_parent; service_id = template }

dial-calls-DialOwns_example :
    (q : Result V.Error V.Conn) × (g : History) × (V.dial kind 1 2 1024 [] ≡ some (q, g))
    × VSession.AfterDial kind 2 1024 [] some_calls q g
dial-calls-DialOwns_example =
    VSession.dial-calls-DialOwns kind 0 0 2 1024 [] some_calls kind-IsPatient (λ g fd. refl)
      (omega arith)

dial-calls-DialLeaks_example :
    (q : Result Hv.Error Hv.Conn) × (g : History) × (Hv.dial kind 1 parent_template []
      ≡ some (q, g))
    × HvSession.AfterDial kind parent_template [] some_calls q g
dial-calls-DialLeaks_example =
    HvSession.dial-calls-DialLeaks kind 0 0 parent_template [] some_calls kind-IsPatient
      (λ g fd. refl) (omega arith)

-- What `some_calls` end with on the connection of descriptor 7, of which the last is a call of
-- `shutdown` by a number that the system may have given away.
abbrev on_seven : V.Conn
on_seven = record { fd = 7; local = none; remote = none }

ends_with :
    calls kind (VSession.methods kind) on_seven some_calls fresh []
    ≡ some (
      record { closed = true; files = 100 ∷ [] },
      shutdown 7 shut_rd none ∷ close 7 none ∷ dup_cloexec 7 (ok 100) ∷ [],
    )
unfolding call calls V.close_read V.file V.close VSession.methods
ends_with = refl
