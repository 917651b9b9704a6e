-- ===== src/Stress/HvsockAddr/Parse.antt =====
-- What `hvsockParseSockStr` makes of the texts that its comment names.
use virtsock.Common.{
  Bool, true, ◌≡◌, refl, ◌∙◌, sym, ap, none, ok, [], ◌∷◌, ◌++◌, append-nil, Text, contains, arith,
}
use virtsock.Fmt.{sprintf-no_literal, sprintf-literal}
use virtsock.Strings.{split_host_port-append, IsPlain, contains_self}
use virtsock.Hvsock.Guid.{Guid, IsGuid, from_string, string_format}
use virtsock.Hvsock.Guid
use virtsock.Hvsock.Guid.RoundTrip.{from_string-string}
use virtsock.Hvsock.Addr.{Addr, string}
use virtsock.Stress.HvsockAddr.{
  parse, parse_nonempty, set_vm, set_service, default_addr, HvsockAddr,
}

-- In a printed GUID there is a dash, and neither a colon nor a bracket.
pub string-IsPlain : (g : Guid) → IsGuid g → IsPlain (Guid.string g)
unfolding Guid.string
string-IsPlain g v = record {
  colon = sprintf-no_literal string_format g b':' v.1 (λ d h. ground arith) refl;
  open_bracket = sprintf-no_literal string_format g b'[' v.1 (λ d h. ground arith) refl;
  close_bracket = sprintf-no_literal string_format g b']' v.1 (λ d h. ground arith) refl;
}

pub string-dash : (g : Guid) → contains (Guid.string g) b'-' ≡ true
unfolding Guid.string
string-dash g = sprintf-literal string_format g b'-' refl

from_string_lem : (g : Guid) → IsGuid g → from_string (Guid.string g) ≡ (g, none)
from_string_lem g v = ap from_string (sym (append-nil (Guid.string g))) ∙ from_string-string g [] v

pub parse_nonempty-append :
    (flag : Bool) (host port : Text)
    → parse flag (host ++ b':' ∷ port) ≡ parse_nonempty flag (host ++ b':' ∷ port)
unfolding parse
parse_nonempty-append flag [] port = refl
parse_nonempty-append flag (c ∷ host) port = refl

set_vm_lem :
    (s : Text) (g : Guid) (a : HvsockAddr)
    → contains s b'-' ≡ true
    → from_string s ≡ (g, none)
    → set_vm true s a
      ≡ ok (record a { hv_addr = record { vmid = g; service_id = a.hv_addr.service_id } })
set_vm_lem [] g a h e = cc
set_vm_lem (c ∷ s) g a h e = rw h (rw e refl)

set_service_lem :
    (s : Text) (g : Guid) (a : HvsockAddr)
    → contains s b'-' ≡ true
    → from_string s ≡ (g, none)
    → set_service true s a
      ≡ ok (record a { hv_addr = record { vmid = a.hv_addr.vmid; service_id = g } })
set_service_lem [] g a h e = cc
set_service_lem (c ∷ s) g a h e = rw e refl

-- With the Hyper-V bindings in use, the printed form of an address is read as that address.
pub parse-string :
    (a : Addr)
    → IsGuid a.vmid
    → IsGuid a.service_id
    → parse true (string a) ≡ ok (record { hv_addr = a; v_addr = default_addr.v_addr })
unfolding string
parse-string a v w =
    let vm = Guid.string a.vmid in
    let svc = Guid.string a.service_id in
    parse_nonempty-append true vm svc
    ∙ rw (contains_self vm svc b':') (
        rw (split_host_port-append vm svc (string-IsPlain a.vmid v) (string-IsPlain a.service_id w))
          (rw (set_vm_lem vm a.vmid default_addr (string-dash a.vmid) (from_string_lem a.vmid v)) (
            set_service_lem svc a.service_id _ (string-dash a.service_id)
              (from_string_lem a.service_id w))))
