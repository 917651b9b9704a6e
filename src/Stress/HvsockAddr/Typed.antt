-- ===== src/Stress/HvsockAddr/Typed.antt =====
-- What `hvsockParseSockStr` returns has the types of the source.
use virtsock.Common.{
  ℕ, Bool, true, false, ◌≡◌, ◌<◌, ◌^◌, refl, Option, none, some, Result, ok, err, >>=-eq-ok, [],
  ◌∷◌, Text, contains, equal, codes, subst, Bool-cases, inl, inr, arith,
}
use virtsock.Fmt.{ScanError}
use virtsock.Hvsock.Guid.{Guid, IsGuid, from_string, port, PortError}
use virtsock.Hvsock.Guid.RoundTrip.{from_string-IsGuid}
use virtsock.Hvsock.Guid.Port.{of_port, eq_of_port}
use virtsock.Vsock.{cid_host, cid_hypervisor}
use virtsock.Hvsock.Addr.{guid_parent, guid_loopback}
use virtsock.Stress.HvsockAddr.{
  HvsockAddr, Fatal, guid_in_vsock_mode, bad_vm, bad_service, parse, cut, set_vm, set_service,
  default_addr, guid_or_fatal, port_or_fatal,
}

-- Without the Hyper-V bindings a service is the one of its port.
abbrev pub SamePort : Bool → Guid → ℕ → Type 0
SamePort true service p = Unit
SamePort false service p = service ≡ of_port p

-- The fields have the types of the source, and without the Hyper-V bindings the two addresses are
-- of the same port.
pub record IsTyped (use_hvsock : Bool) (a : HvsockAddr) : Type 0 where
  pub vmid : IsGuid a.hv_addr.vmid
  pub service : IsGuid a.hv_addr.service_id
  pub cid : a.v_addr.cid < 2 ^ 32
  pub port : a.v_addr.port < 2 ^ 32
  pub same : SamePort use_hvsock a.hv_addr.service_id a.v_addr.port

-- What is known of a result is known of the value that it is.
ok-transport :
    {E A : Type 0} (P : A → Type 0) {x y : A} → ◌≡◌ {A = Result E A} (ok x) (ok y) → P x → P y
ok-transport P {x} {y} e h = let same : x ≡ y = cc in subst P same h

guid_or_fatal-IsGuid :
    (die : ScanError → Fatal) (s : Text) {g : Guid}
    → guid_or_fatal die (from_string s) ≡ ok g
    → IsGuid g
guid_or_fatal-IsGuid die s {g} e = of (from_string s) (from_string-IsGuid s) e
  where
    of : (r : Guid × Option ScanError) → IsGuid r.0 → guid_or_fatal die r ≡ ok g → IsGuid g
    of (x, none) v is = ok-transport IsGuid is v
    of (x, some f) v is = cc

port_or_fatal-eq : (s : Text) (r : Result PortError ℕ) {p : ℕ} → port_or_fatal s r ≡ ok p → r ≡ ok p
port_or_fatal-eq s (ok q) {p} is =
    ok-transport (λ x. ◌≡◌ {A = Result PortError ℕ} (ok q) (ok x)) is refl
port_or_fatal-eq s (err e) is = cc

default_same :
    (use_hvsock : Bool)
    → SamePort use_hvsock default_addr.hv_addr.service_id default_addr.v_addr.port
unfolding from_string port
default_same true = tt
default_same false = refl

default-IsTyped : (use_hvsock : Bool) → IsTyped use_hvsock default_addr
unfolding from_string port
default-IsTyped use_hvsock = record {
  vmid = omega arith;
  service = omega arith;
  cid = omega arith;
  port = omega arith;
  same = default_same use_hvsock;
}

with_vm-IsTyped :
    (use_hvsock : Bool) (a : HvsockAddr) (g : Guid) (cid : ℕ)
    → IsTyped use_hvsock a
    → IsGuid g
    → cid < 2 ^ 32
    → IsTyped use_hvsock (record {
      hv_addr = record { vmid = g; service_id = a.hv_addr.service_id };
      v_addr = record { cid = cid; port = a.v_addr.port };
    })
with_vm-IsTyped use_hvsock a g cid v guid lt = record {
  vmid = guid;
  service = v.service;
  cid = lt;
  port = v.port;
  same = v.same;
}

named-IsGuid : IsGuid guid_parent × IsGuid guid_loopback
unfolding from_string
named-IsGuid = omega arith

set_vm-guid :
    (use_hvsock : Bool) (c : ℕ) (s : Text) (a : HvsockAddr) {b : HvsockAddr}
    → contains (c ∷ s) b'-' ≡ true
    → IsTyped use_hvsock a
    → set_vm use_hvsock (c ∷ s) a ≡ ok b
    → IsTyped use_hvsock b
set_vm-guid false c s a {b} dash v is =
    let e : ◌≡◌ {A = Result Fatal HvsockAddr} (err guid_in_vsock_mode) (ok b) = rw dash at is in cc
set_vm-guid true c s a dash v is =
    let (g, g_is, e) =
      >>=-eq-ok (guid_or_fatal (bad_vm (c ∷ s)) (from_string (c ∷ s))) _ (rw dash at is) in
    ok-transport (IsTyped true) e (
      with_vm-IsTyped true a g a.v_addr.cid v (guid_or_fatal-IsGuid (bad_vm (c ∷ s)) (c ∷ s) g_is)
        v.cid)

set_vm-IsTyped :
    (use_hvsock : Bool) (s : Text) (a : HvsockAddr) {b : HvsockAddr}
    → IsTyped use_hvsock a
    → set_vm use_hvsock s a ≡ ok b
    → IsTyped use_hvsock b
set_vm-IsTyped use_hvsock [] a v is = ok-transport (IsTyped use_hvsock) is v
set_vm-IsTyped use_hvsock (c ∷ s) a {b} v is = elim (Bool-cases (contains (c ∷ s) b'-')) [
  | inl dash ↦ set_vm-guid use_hvsock c s a dash v is
  | inr plain ↦ elim (Bool-cases (equal (c ∷ s) (codes "parent"))) [
    | inl parent ↦
        ok-transport (IsTyped use_hvsock) (rw (plain, parent) at is)
          (with_vm-IsTyped use_hvsock a guid_parent cid_host v named-IsGuid.0 (omega arith))
    | inr self ↦
        ok-transport (IsTyped use_hvsock) (rw (plain, self) at is)
          (with_vm-IsTyped use_hvsock a guid_loopback cid_hypervisor v named-IsGuid.1 (omega arith))
  ]
]

set_service-IsTyped :
    (use_hvsock : Bool) (s : Text) (a : HvsockAddr) {b : HvsockAddr}
    → IsTyped use_hvsock a
    → set_service use_hvsock s a ≡ ok b
    → IsTyped use_hvsock b
set_service-IsTyped use_hvsock [] a v is = ok-transport (IsTyped use_hvsock) is v
set_service-IsTyped true (c ∷ s) a v is =
    let (g, g_is, e) = >>=-eq-ok (guid_or_fatal (bad_service (c ∷ s)) (from_string (c ∷ s))) _ is in
    ok-transport (IsTyped true) e (record {
      vmid = v.vmid;
      service = guid_or_fatal-IsGuid (bad_service (c ∷ s)) (c ∷ s) g_is;
      cid = v.cid;
      port = v.port;
      same = tt;
    })
set_service-IsTyped false (c ∷ s) a v is =
    let (g, g_is, e) = >>=-eq-ok (guid_or_fatal (bad_service (c ∷ s)) (from_string (c ∷ s))) _ is in
    let (p, p_is, f) = >>=-eq-ok (port_or_fatal (c ∷ s) (port g)) _ e in
    let guid = guid_or_fatal-IsGuid (bad_service (c ∷ s)) (c ∷ s) g_is in
    let (lt, same) = eq_of_port g guid (port_or_fatal-eq (c ∷ s) (port g) p_is) in
    ok-transport (IsTyped false) f
      (record { vmid = v.vmid; service = guid; cid = v.cid; port = lt; same = same })

-- Whatever the text and the mode, an address that `hvsockParseSockStr` returns has GUIDs of sixteen
-- bytes, and a CID and a port of 32 bits; where the Hyper-V bindings are not in use, its service
-- GUID is always the one of its port.
pub parse-IsTyped :
    (use_hvsock : Bool) (s : Text) (a : HvsockAddr)
    → parse use_hvsock s ≡ ok a
    → IsTyped use_hvsock a
unfolding parse
parse-IsTyped use_hvsock [] a is = ok-transport (IsTyped use_hvsock) is (default-IsTyped use_hvsock)
parse-IsTyped use_hvsock (c ∷ s) a is =
    let (parts, _, e1) = >>=-eq-ok (cut (c ∷ s)) _ is in
    let (b, b_is, e2) = >>=-eq-ok (set_vm use_hvsock parts.0 default_addr) _ e1 in
    set_service-IsTyped use_hvsock parts.1 b
      (set_vm-IsTyped use_hvsock parts.0 default_addr (default-IsTyped use_hvsock) b_is) e2
