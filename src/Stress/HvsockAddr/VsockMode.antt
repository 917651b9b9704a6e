-- ===== src/Stress/HvsockAddr/VsockMode.antt =====
-- Where the Hyper-V bindings are not in use, `hvsockParseSockStr` gives virtio addresses: the same
-- ones as `vsockParseSockStr` for the numbers that they stand for.
use virtsock.Common.{
  ℕ, Bool, true, false, ◌≡◌, ◌<◌, ◌^◌, refl, ◌∙◌, subst, none, ok, [], ◌∷◌, ◌++◌, Text, contains,
  equal, codes, if◌then◌else◌, Bool-cases, inl, inr,
}
use virtsock.Fmt.{hex_08}
use virtsock.Strings.{split_host_port-append, IsPlain, contains_self}
use virtsock.Hvsock.Guid.{Guid, from_string, port}
use virtsock.Hvsock.Guid.Port.{
  suffix, of_port, of_port-IsGuid, string-of_port, port-of_port, from_string-of_port,
}
use virtsock.Hvsock.Addr.{guid_zero, guid_parent, guid_loopback}
use virtsock.Vsock.{cid_any, cid_host, cid_hypervisor}
use virtsock.Vsock
use virtsock.Stress.HvsockAddr.{parse, set_vm, set_service, default_addr, HvsockAddr}
use virtsock.Stress.HvsockAddr.Parse.{parse_nonempty-append, string-IsPlain, string-dash}
use virtsock.Stress.VsockAddr
use virtsock.Stress.VsockAddr.Parse.{Field, parse_forms}
use virtsock.Stress.Socks.{hvsock_endpoint, vsock_endpoint}

-- The machine that a host stands for: any if it is left out, the parent, or else this one.
abbrev pub cid_of : Text → ℕ
cid_of [] = cid_any
cid_of (c ∷ s) = if equal (c ∷ s) (codes "parent") then cid_host else cid_hypervisor

abbrev pub vm_of : Text → Guid
vm_of [] = guid_zero
vm_of (c ∷ s) = if equal (c ∷ s) (codes "parent") then guid_parent else guid_loopback

with_vm_of : Text → HvsockAddr
with_vm_of host = record {
  hv_addr = record { vmid = vm_of host; service_id = default_addr.hv_addr.service_id };
  v_addr = record { cid = cid_of host; port = default_addr.v_addr.port };
}

set_vm-named :
    (host : Text)
    → contains host b'-' ≡ false
    → set_vm false host default_addr ≡ ok (with_vm_of host)
unfolding with_vm_of default_addr
set_vm-named [] plain = refl
set_vm-named (c ∷ s) plain = rw plain (elim (Bool-cases (equal (c ∷ s) (codes "parent"))) [
  | inl is ↦ rw is refl
  | inr not ↦ rw not refl
])

set_service-port :
    (s : Text) (g : Guid) (p : ℕ) (a : HvsockAddr)
    → contains s b'-' ≡ true
    → from_string s ≡ (g, none)
    → port g ≡ ok p
    → set_service false s a
      ≡ ok (record {
        hv_addr = record { vmid = a.hv_addr.vmid; service_id = g };
        v_addr = record { cid = a.v_addr.cid; port = p };
      })
set_service-port [] g p a h e f = cc
set_service-port (c ∷ s) g p a h e f = rw e (rw f refl)

-- Where the Hyper-V bindings are not in use, a host without a dash and the GUID of a port are read as
-- an address that is dialled and listened on where `vsockParseSockStr` has it from the two numbers:
-- the CID of any machine if the host is left out, of the parent, or else the loopback's.
pub parse-agrees :
    (darwin : Bool) (host cid s : Text) (p : ℕ)
    → IsPlain host
    → contains host b'-' ≡ false
    → p < 2 ^ 32
    → Field (VsockAddr.default_addr darwin).cid cid (cid_of host)
    → Field VsockAddr.vsock_port s p
    → (a : HvsockAddr) × (v : Vsock.Addr) × (parse false (host ++ b':' ∷ (hex_08 p ++ suffix))
        ≡ ok a)
      × (VsockAddr.parse darwin (cid ++ b':' ∷ s) ≡ ok v)
      × (hvsock_endpoint false a ≡ vsock_endpoint v)
parse-agrees darwin host cid s p plain no_dash small is_cid is_port =
    let svc = hex_08 p ++ suffix in
    let printed = string-of_port p small in
    let svc_plain : IsPlain svc =
      subst IsPlain printed (string-IsPlain (of_port p) (of_port-IsGuid p)) in
    let svc_dash : contains svc b'-' ≡ true =
      subst (λ x. contains x b'-' ≡ true) printed (string-dash (of_port p)) in
    (
      record {
        hv_addr = record { vmid = vm_of host; service_id = of_port p };
        v_addr = record { cid = cid_of host; port = p };
      },
      record { cid = cid_of host; port = p },
      parse_nonempty-append false host svc
          ∙ rw (contains_self host svc b':') (
              rw (split_host_port-append host svc plain svc_plain) (
                rw (set_vm-named host no_dash) (
                  unfold with_vm_of in
                  set_service-port svc (of_port p) p _ svc_dash (from_string-of_port p small)
                    (port-of_port p small)))),
      (parse_forms darwin cid s (cid_of host) p is_cid is_port).0,
      refl,
    )
