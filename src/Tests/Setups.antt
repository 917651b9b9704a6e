-- ===== src/Tests/Setups.antt =====
-- `main` of vsudd as a whole, and an address of sock_stress, at concrete inputs.
use virtsock.Common.{
  ℕ, ◌≡◌, refl, true, false, Option, none, some, List, [], ◌∷◌, ok, codes, ◌==◌, if◌then◌else◌,
}
use virtsock.Hvsock.Guid.{from_string, port}
use virtsock.Vsock.{cid_any, cid_host}
use virtsock.Hvsock.Addr.{guid_parent}
use virtsock.Hvsock.Guid.Port.{of_port}
use virtsock.Vsudd.Network.{Target, vsock}
use virtsock.Vsudd.Main.{Host, Flags, main, at_wait, null, inherited, system_log}
use virtsock.Strings.{parse_uint, decimal, decimal_loop, split_n, cut_at, split_host_port}
use virtsock.Vsudd.Forwards.{listener, set_value}
use virtsock.Vsudd.Main.{parse_inports}
use virtsock.Vsudd.Start.{start}
use virtsock.Stress.HvsockAddr.{HvsockAddr, parse}
use virtsock.Stress.HvsockAddr.Typed.{IsTyped, parse-IsTyped}

-- A system on which only `Dup2` onto standard error fails.
abbrev host : Host
host = record {
  pid = 421;
  open_pid_file = none;
  write = λ s. (s, none);
  open_syslog = none;
  open_null = none;
  dup2 = λ fd. if fd == 2 then some 9 else none;
}

abbrev flags : Flags
flags = record {
  inports = codes "1024:unix:/run/a" ∷ codes "1025:unix:/run/b:c" ∷ [];
  syslog = codes "514:/dev/log";
  detach = true;
  pid_file = codes "/run/vsudd.pid";
}

abbrev all_bound : List Target → Target → Option ℕ
all_bound ts t = none

main_waits :
    main host false all_bound flags
    ≡ at_wait
        (record {
          stdin = null;
          stdout = null;
          stderr = inherited;
          log = system_log;
          log_flags = 0;
          pid_file = some (codes "421");
        })
        (record {
          forwards_syslog = true;
          serving = record {
            listeners = vsock cid_any 1024 ∷ vsock cid_any 1025 ∷ [];
            use_hvsock = false;
          };
        })
unfolding main parse_inports set_value split_n cut_at start listener parse_uint decimal decimal_loop
main_waits = refl

-- The port of a GUID in an address of virtio sockets.
abbrev parent_1024 : HvsockAddr
parent_1024 = record {
  hv_addr = record { vmid = guid_parent; service_id = of_port 1024 };
  v_addr = record { cid = cid_host; port = 1024 };
}

parent_1024_is : parse false (codes "parent:00000400-facb-11e6-bd58-64006a7986d3") ≡ ok parent_1024
unfolding parse from_string port split_host_port
parent_1024_is = refl

parse-IsTyped_example : IsTyped false parent_1024
parse-IsTyped_example =
    parse-IsTyped false (codes "parent:00000400-facb-11e6-bd58-64006a7986d3") parent_1024
      parent_1024_is
