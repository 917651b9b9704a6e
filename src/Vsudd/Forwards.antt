-- ===== src/Vsudd/Forwards.antt =====
-- cmd/vsudd/main.go: the values of the flag `-inport`, and where each of them listens.
pub mod Laws
use virtsock.Common.{
  ℕ, Bool, true, false, Option, none, some, List, [], ◌∷◌, ◌++◌, Result, ok, err, Text, codes,
  contains, equal, if◌then◌else◌,
}
use virtsock.Fmt.{ScanError}
use virtsock.Strings.{split_n, NumError, parse_uint}
use virtsock.Hvsock.Guid.{Guid, from_string, port, PortError}
use virtsock.Hvsock.Addr.{guid_zero}
use virtsock.Vsock.{cid_any}
use virtsock.Vsudd.Network.{Target, hvsock, vsock}

-- `forward`.
pub record Forward : Type 0 where
  pub vsock_port : Text
  pub net : Text
  pub usock : Text

-- "Failed to parse".
pub data SetError : Type 0 where
  failed_to_parse : Text → SetError

abbrev pub add_parts : List Forward → Text → List Text → Result SetError (List Forward)
add_parts fs value (v ∷ n ∷ u ∷ []) = ok (fs ++ record { vsock_port = v; net = n; usock = u } ∷ [])
add_parts fs value _ = err (failed_to_parse value)

-- `forwards.Set`.
unfoldable pub set_value : List Forward → Text → Result SetError (List Forward)
unfolding split_n
set_value fs value = add_parts fs value (split_n 3 value b':')

-- The calls of `log.Fatalf` before a listener is made.
pub data Fatal : Type 0 where
  cannot_forward : Text → Text → Fatal
  bad_guid : Text → ScanError → Fatal
  bad_port : PortError → Fatal
  bad_number : Text → NumError → Fatal

abbrev pub port_listener : Result PortError ℕ → Result Fatal (Target × Bool)
port_listener (ok p) = ok (vsock cid_any p, true)
port_listener (err e) = err (bad_port e)

abbrev pub guid_listener : Bool → Text → Guid × Option ScanError → Result Fatal (Target × Bool)
guid_listener supported s (g, some e) = err (bad_guid s e)
guid_listener true s (g, none) = ok (hvsock guid_zero g, true)
guid_listener false s (g, none) = port_listener (port g)

abbrev pub number_listener : Text → Result NumError ℕ → Result Fatal (Target × Bool)
number_listener s (ok p) = ok (vsock cid_any p, false)
number_listener s (err e) = err (bad_number s e)

-- Where `main` listens for a forward, and what it sets `useHVsock` to; `supported` is the answer of
-- `hvsock.Supported`.
unfoldable pub listener : Bool → Forward → Result Fatal (Target × Bool)
unfolding from_string port parse_uint
listener supported f =
    if equal f.net (codes "unix")
    then (if contains f.vsock_port b'-'
        then guid_listener supported f.vsock_port (from_string f.vsock_port)
        else number_listener f.vsock_port (parse_uint f.vsock_port))
    else err (cannot_forward f.net f.usock)
