-- ===== src/Tests/Servings.antt =====
-- The listeners of vsudd and the clients of sock_stress on Linux, at concrete kernels.
use virtsock.Common.{
  ℕ, zero, suc, ◌==◌, ◌≡◌, refl, false, true, none, some, List, [], ◌∷◌, codes, ok, err,
  if◌then◌else◌, length,
}
use virtsock.System.{vm, Kernel, History}
use virtsock.System.Descriptors.{open_fds}
use virtsock.Strings.{parse_uint}
use virtsock.Hvsock.Guid.{from_string, port}
use virtsock.Hvsock.Linux as Hv
use virtsock.Vsock.{cid_any}
use virtsock.Vsock.Linux as V
use virtsock.Vsudd.Network
use virtsock.Vsudd.Forwards.{Forward}
use virtsock.Vsudd.OnLinux.{Served, serve, target_of, listen_on, failed_to_bind, of_vsock}
use virtsock.Vsudd.OnLinux.Held.{AfterFailure, Covers, held, serve-held}
use virtsock.Hvsock.Guid.{template}
use virtsock.Hvsock.Addr.{guid_parent}
use virtsock.Stress.HvsockAddr.{HvsockAddr}
use virtsock.Stress.OnLinux.Server
use virtsock.Stress.OnLinux.Serving.{Owns, server-Owns}
use virtsock.Vsock.Linux.Session as VSession
use virtsock.Stress.OnLinux.{Transfer, completes, leaves_call, VmSock, vsock}
use virtsock.Tests.Kernels.{moody}

-- It makes every socket of virtio and none of Hyper-V, and binds three times.
abbrev virtio_only : Kernel
virtio_only = record moody {
  on_socket = λ h d t p. if d == 43 then err 97 else ok (length h);
  on_bind = λ h fd sa. if fd == 7 then some 98 else none;
}

-- A GUID, a number, and one more number.
abbrev three : List Forward
three =
    record {
      vsock_port = codes "00000400-facb-11e6-bd58-64006a7986d3";
      net = codes "unix";
      usock = [];
    }
    ∷ record { vsock_port = codes "1025"; net = codes "unix"; usock = [] }
    ∷ record { vsock_port = codes "1026"; net = codes "unix"; usock = [] }
    ∷ []

serve-held_example :
    (s : Served) × (g : History) × (serve virtio_only three false [] ≡ some (s, g))
    × AfterFailure s.failure (held s.listeners (open_fds [])) (open_fds g)
    × Covers false three s.listeners s.failure s.use_hvsock
serve-held_example = serve-held virtio_only three [] (λ g fd. refl)

-- The third cannot be bound, and its socket stays open.
third_fails :
    (g : History) × (serve virtio_only three false []
      ≡ some (
        record {
          listeners = (Network.vsock cid_any 1024, 1) ∷ (Network.vsock cid_any 1025, 4) ∷ [];
          use_hvsock = false;
          failure = some (
              failed_to_bind
                (Network.vsock cid_any 1026)
                (of_vsock (V.failed_bind 98 cid_any 1026)));
        },
        g,
      ))
unfolding serve target_of listen_on Hv.supported V.listen from_string port parse_uint
third_fails = (_, refl)

-- Three clients of Hyper-V sockets, none of which is connected.
abbrev parent_service : HvsockAddr
parent_service = record {
  hv_addr = record { vmid = guid_parent; service_id = template };
  v_addr = record { cid = 2; port = 0 };
}

-- It connects every socket.
abbrev answering : Kernel
answering = record moody { on_connect = λ h fd sa. none }

-- The second leaves a read behind.
abbrev second_hangs : ℕ → Transfer
second_hangs (suc zero) = leaves_call
second_hangs n = completes

-- A server that accepts twice; the request that came first ends.
abbrev lively : Kernel
lively = record moody {
  on_bind = λ h fd sa. none;
  on_accept = λ h fd. ok (length h, vm 3 (length h));
}

abbrev any_5000 : VmSock
any_5000 = vsock (record { cid = cid_any; port = 5000 })

abbrev two_accepted : List Server.Event
two_accepted = Server.accepts ∷ Server.accepts ∷ Server.finishes 1 ∷ []

server-Owns_example :
    (r : Server.Served) × (g : History) × (Server.server lively two_accepted true any_5000 []
      ≡ some (r, g))
    × Owns r [] g
server-Owns_example = server-Owns lively two_accepted true any_5000 [] (λ g fd. refl)

first_ended :
    (g : History) × (Server.server lively two_accepted true any_5000 []
      ≡ some (
        Server.on_vsock
            (record { fd = 0; local = record { cid = cid_any; port = 5000 } })
            (record {
              connid = 2;
              active =
                  (
                    1,
                    V.new_vsock_conn 4
                        (some (record { cid = cid_any; port = 5000 }))
                        (some (record { cid = 3; port = 4 })),
                  )
                  ∷ [];
              fatal = false;
            }),
        g,
      ))
    × (open_fds g ≡ 4 ∷ 0 ∷ [])
unfolding Server.server Server.vsock_server Server.events V.listen V.accept VSession.methods V.close
    open_fds V.sockaddr_to_vsock
first_ended = (_, refl, refl)
