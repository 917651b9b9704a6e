-- ===== src/Tests/Handles.antt =====
-- pkg/hvsock on Windows and pkg/vsock on macOS, at concrete inputs.
use virtsock.Common.{
  length, ◌≡◌, refl, Bool, true, false, none, some, Result, Option, ok, [], ◌∷◌, codes, Text, drop,
  ◌++◌, ap, append-cancel,
}
use virtsock.System.{History, Kernel, hv}
use virtsock.Hvsock.Guid.{template, from_string}
use virtsock.Hvsock.Addr.{Addr, guid_parent}
use virtsock.Hvsock.Windows.Sockets.{listen, Error, Listener}
use virtsock.Hvsock.Windows.Sockets.Listening.{ListenHandles, named, listen-ListenHandles}
use virtsock.Hvsock.Windows.Close.{
  Reach, step, here, next, fresh, act, State, io_start, io_locked, close_start,
}
use virtsock.Hvsock.Windows.Close.Phases.{run, events, view, Reach-run}
use virtsock.Hvsock.Windows.Io.{io_pending}
use virtsock.Hvsock.Windows.Completion
use virtsock.Hvsock.Windows.Completion.{
  Operation, Action, issue, complete, dequeue, arrive, expire, cancel, draining, with_processor,
  prepared,
}
use virtsock.Hvsock.Windows.Completion.Sound.{AllFit}
use virtsock.Hvsock.Windows.Completion.Delivery.{SomeReceives, Reach-receives}
use virtsock.Vsock.Hyperkit.{Host, Paths, socket_mode, removed}
use virtsock.Vsock.Hyperkit.Names.{IsJoin}
use virtsock.Tests.Kernels.{moody}

template-length : length template ≡ 16
unfolding from_string
template-length = refl

parent-length : length guid_parent ≡ 16
unfolding from_string
parent-length = refl

abbrev here_template : Addr
here_template = record { vmid = guid_parent; service_id = template }

-- Its kernel makes a socket and refuses to bind it.
listen-ListenHandles_example :
    (q : Result Error Listener) × (g : History) × (listen moody here_template [] ≡ some (q, g))
    × ListenHandles (named here_template) here_template [] q g
listen-ListenHandles_example =
    listen-ListenHandles moody here_template [] parent-length template-length

abbrev on_three : Listener
on_three = record { fd = 3; local = here_template }

-- A peer is accepted, and named by its structure.
abbrev accepts_peer : Kernel
accepts_peer = record moody {
  on_accept = λ h fd. ok (7, hv 34 0 template guid_parent);
  on_set_modes = λ h fd. none;
}

-- Of a read and a close, the read has taken its lock.
abbrev reader_locked : State
reader_locked = record {
  shared = record { closing = false; wg = 0; readers = 1; writer = false; closes = 0 };
  threads = io_locked ∷ close_start ∷ [];
}

reader_locked-Reach :
    Reach (record { shared = fresh; threads = io_start ∷ close_start ∷ [] }) reader_locked
unfolding act
reader_locked-Reach =
    next here
      (step [] (close_start ∷ []) io_start io_locked false reader_locked.shared refl refl refl)

Reach-run_example : run (events reader_locked-Reach) ≡ some (view reader_locked.shared)
Reach-run_example =
    Reach-run (io_start ∷ close_start ∷ []) {t = reader_locked} tt reader_locked-Reach

-- A `Join` that puts a slash between a directory and a name.
abbrev slash_join : Text → Text → Text
slash_join dir s = dir ++ b'/' ∷ s

slash_join-IsJoin : IsJoin slash_join
slash_join-IsJoin = record { apart = λ dir s t _ _ e. ap (drop 1) (append-cancel dir e) }

abbrev mac : Host
mac = record {
  join = slash_join;
  home = codes "/Users/me";
  dial_unix = λ path. ok 4;
  write = λ c dest. none;
  remove = λ path. removed;
  listen_unix = λ path. ok 5;
}

abbrev in_tmp : Paths
in_tmp = record { socket = codes "/tmp"; connect = codes "/tmp/connect" }

tmp_mode : socket_mode mac (codes "hyperkit:/tmp") ≡ some in_tmp
unfolding socket_mode
tmp_mode = refl

-- A read whose deadline has passed while the processor has its packet of three bytes.
abbrev at_send : Completion.State
at_send = record {
  busy = true;
  operations = record { caller = draining; packet = with_processor (3, none) } ∷ [];
}

at_send-Reach : Completion.Reach true (record { busy = false; operations = prepared 1 }) at_send
unfolding Completion.act
at_send-Reach =
    let pending = act_on Completion.here (issue (0, some io_pending)) refl in
    let at_select = act_on pending arrive refl in
    let in_time = act_on (act_on at_select (complete (3, none)) refl) dequeue refl in
    act_on (act_on in_time expire refl) cancel refl
  where
    act_on :
        {busy busy' : Bool} {o o' : Operation} {s : Completion.State}
        → Completion.Reach true s (record { busy = busy; operations = o ∷ [] })
        → (a : Action)
        → ◌≡◌ {A = Option (Bool × Operation)}
            (Completion.act true a busy o.caller o.packet)
            (some (busy', o'))
        → Completion.Reach true s (record { busy = busy'; operations = o' ∷ [] })
    act_on {busy} {busy'} {o} {o'} r a e =
        Completion.next r (Completion.step [] [] o o' a busy' refl e refl)

Reach-receives_example :
    AllFit at_send.operations × (at_send.busy ≡ true → SomeReceives at_send.operations)
Reach-receives_example = Reach-receives 1 {t = at_send} at_send-Reach
