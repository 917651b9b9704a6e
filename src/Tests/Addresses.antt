-- ===== src/Tests/Addresses.antt =====
-- GUIDs and addresses, at concrete inputs.
use virtsock.Common.{
  Text, ◌≡◌, ◌<◌, ◌^◌, ◌↔◌, refl, true, false, none, ok, err, [], ◌∷◌, ◌++◌, codes, arith,
}
use virtsock.Fmt.{hex_08, hex_fixed}
use virtsock.Strings.{NumError, IsPlain, parse_uint, split_host_port}
use virtsock.Hvsock.Guid.{IsGuid, template, from_string, string, port}
use virtsock.Hvsock.Guid.RoundTrip.{from_string-string}
use virtsock.Hvsock.Guid.Port.{suffix, port-ok_iff}
use virtsock.Hvsock.Addr.{Addr, guid_loopback}
use virtsock.Stress.HvsockAddr
use virtsock.Stress.HvsockAddr.VsockMode.{parse-agrees}
use virtsock.Stress.Socks
use virtsock.Stress.Socks.{hvsock_endpoint, vsock_endpoint, Host, sock_of}
use virtsock.Stress.Socks.Printed.{sock_of-string}
use virtsock.Stress.VsockAddr
use virtsock.Stress.VsockAddr.Parse.{IsCut, Field, parse-Reads}
use virtsock.Stress.NetAddr.{parse_net_str}
use virtsock.Vsock

template-IsGuid : IsGuid template
unfolding from_string
template-IsGuid = (refl, omega arith)

loopback-IsGuid : IsGuid guid_loopback
unfolding from_string
loopback-IsGuid = (refl, omega arith)

from_string-string_example : from_string (string template ++ codes " and more") ≡ (template, none)
from_string-string_example = from_string-string template (codes " and more") template-IsGuid

port-ok_iff_example :
    (port template ≡ ok 0) ↔ ((0 < 2 ^ 32) × (string template ≡ hex_08 0 ++ suffix))
port-ok_iff_example = port-ok_iff template 0 template-IsGuid

abbrev loopback_template : Addr
loopback_template = record { vmid = guid_loopback; service_id = template }

abbrev darwin_host : Host
darwin_host = record {
  darwin = true;
  use_hvsock = true;
  resolve_tcp = λ net s. none;
  resolve_udp = λ net s. none;
}

abbrev loopback_socket : HvsockAddr.HvsockAddr
loopback_socket = record { hv_addr = loopback_template; v_addr = record { cid = 0; port = 0 } }

abbrev guest_21 : Vsock.Addr
guest_21 = record { cid = 3; port = 21 }

-- It prints so, which no number is.
guest_21-string : Socks.string (Socks.vsock guest_21) ≡ codes "00000003.00000015"
unfolding Socks.string Vsock.string Vsock.address hex_08 hex_fixed
guest_21-string = refl

sock_of-string_example :
    ((e : NumError) × (sock_of darwin_host
          (record { scheme = codes "vsock"; host = Socks.string (Socks.vsock guest_21); path = [] })
        ≡ err (Socks.in_vsock (VsockAddr.bad_number (Socks.string (Socks.vsock guest_21)) e))))
    × (sock_of
          (record darwin_host { use_hvsock = true })
          (record {
            scheme = codes "hvsock";
            host = Socks.string (Socks.hvsock loopback_socket);
            path = [];
          })
        ≡ ok (
            Socks.hvsock
              (record { hv_addr = loopback_template; v_addr = HvsockAddr.default_addr.v_addr })))
    × (sock_of
          (record darwin_host { use_hvsock = false })
          (record {
            scheme = codes "hvsock";
            host = Socks.string (Socks.hvsock loopback_socket);
            path = [];
          })
        ≡ err (Socks.in_hvsock HvsockAddr.guid_in_vsock_mode))
sock_of-string_example =
    sock_of-string darwin_host guest_21 loopback_socket loopback-IsGuid template-IsGuid

two_is : parse_uint (codes "2") ≡ ok 2
unfolding parse_uint
two_is = refl

port_is : parse_uint (codes "1024") ≡ ok 1024
unfolding parse_uint
port_is = refl

abbrev host_1024 : Vsock.Addr
host_1024 = record { cid = 2; port = 1024 }

parsed : VsockAddr.parse false (codes "2:1024") ≡ ok host_1024
unfolding VsockAddr.parse split_host_port parse_uint
parsed = refl

parse-Reads_example :
    ((host port : Text) × IsCut (codes "2:1024") host port
      × Field (VsockAddr.default_addr false).cid host 2
      × Field VsockAddr.vsock_port port 1024)
    × (2 < 2 ^ 32)
    × (1024 < 2 ^ 32)
parse-Reads_example = parse-Reads false (codes "2:1024") host_1024 parsed

-- A port follows the bracket of an IPv6 address.
port_added : parse_net_str true (codes "[::1]") ≡ codes "[::1]:5303"
unfolding parse_net_str
port_added = refl

parent-IsPlain : IsPlain (codes "parent")
parent-IsPlain = record { colon = refl; open_bracket = refl; close_bracket = refl }

parse-agrees_example :
    (a : HvsockAddr.HvsockAddr) × (v : Vsock.Addr) × (HvsockAddr.parse false
        (codes "parent" ++ b':' ∷ (hex_08 1024 ++ suffix))
      ≡ ok a)
    × (VsockAddr.parse false (codes "2" ++ b':' ∷ codes "1024") ≡ ok v)
    × (hvsock_endpoint false a ≡ vsock_endpoint v)
parse-agrees_example =
    parse-agrees false (codes "parent") (codes "2") (codes "1024") 1024 parent-IsPlain refl
      (omega arith) two_is port_is
