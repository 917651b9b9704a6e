-- ===== src/Stress/Socks/Printed.antt =====
-- Whether the address that a socket prints can be given back on the command line.
use virtsock.Common.{
  Bool, true, false, ◌≡◌, refl, ap, ◌∙◌, ok, err, Result-cases, inl, inr, [], ◌∷◌, Text, codes,
  contains, arith,
}
use virtsock.Fmt.{hex_08, hex_08-no_literal}
use virtsock.Strings.{
  contains-append, contains_self, NumError, parse_uint, parse_uint-contains, split_host_port-append,
}
use virtsock.Hvsock.Guid.{IsGuid}
use virtsock.Hvsock.Guid
use virtsock.Hvsock.Addr
use virtsock.Vsock
use virtsock.Vsock.{address}
use virtsock.Stress.VsockAddr
use virtsock.Stress.HvsockAddr
use virtsock.Stress.HvsockAddr.{HvsockAddr, set_vm, default_addr, guid_in_vsock_mode}
use virtsock.Stress.HvsockAddr.Parse.{
  parse-string, string-IsPlain, string-dash, parse_nonempty-append,
}
use virtsock.Stress.Socks.{
  vsock, hvsock, Host, sock_of, string, in_vsock, in_hvsock, as_vsock, as_hvsock,
}

-- In a printed virtio address there is a dot and no colon.
string-colon : (a : Vsock.Addr) → contains (Vsock.string a) b':' ≡ false
unfolding Vsock.string address
string-colon a =
    contains-append (hex_08 a.cid) (b'.' ∷ hex_08 a.port) b':'
    ∙ rw
        (
          hex_08-no_literal a.cid b':' (λ d h. ground arith),
          hex_08-no_literal a.port b':' (λ d h. ground arith),
        )
        refl

string-dot : (a : Vsock.Addr) → contains (Vsock.string a) b'.' ≡ true
unfolding Vsock.string address
string-dot a = contains_self (hex_08 a.cid) (hex_08 a.port) b'.'

-- No number has a dot.
parse_uint-dot : (s : Text) → contains s b'.' ≡ true → (e : NumError) × (parse_uint s ≡ err e)
parse_uint-dot s dot = elim (Result-cases (parse_uint s)) [
  | inl (n, is) ↦
      let none : contains s b'.' ≡ false = parse_uint-contains s b'.' refl is in
      absurd (ground arith)
  | inr bad ↦ bad
]

vsock-refused :
    (darwin : Bool) (s : Text)
    → contains s b':' ≡ false
    → contains s b'.' ≡ true
    → (e : NumError) × (VsockAddr.parse darwin s ≡ err (VsockAddr.bad_number s e))
unfolding VsockAddr.parse
vsock-refused darwin [] colon dot = cc
vsock-refused darwin (c ∷ s) colon dot =
    let (e, bad) = parse_uint-dot (c ∷ s) dot in (e, rw colon (rw bad refl))

set_vm-refused :
    (s : Text) (b : HvsockAddr) → contains s b'-' ≡ true → set_vm false s b ≡ err guid_in_vsock_mode
set_vm-refused [] b dash = cc
set_vm-refused (c ∷ s) b dash = rw dash refl

hvsock-refused :
    (a : Addr.Addr)
    → IsGuid a.vmid
    → IsGuid a.service_id
    → HvsockAddr.parse false (Addr.string a) ≡ err guid_in_vsock_mode
unfolding Addr.string
hvsock-refused a v w =
    let vm = Guid.string a.vmid in
    let svc = Guid.string a.service_id in
    parse_nonempty-append false vm svc
    ∙ rw (contains_self vm svc b':') (
        rw (split_host_port-append vm svc (string-IsPlain a.vmid v) (string-IsPlain a.service_id w))
          (rw (set_vm-refused vm default_addr (string-dash a.vmid)) refl))

-- What a socket prints, given back as the host of its scheme's URL. A virtio address is never read:
-- it prints in hexadecimal and with a dot, which is no number. A Hyper-V address of two GUIDs is read
-- as itself where the Hyper-V bindings are in use, and refused, as a GUID, where they are not.
pub sock_of-string :
    (h : Host) (a : Vsock.Addr) (b : HvsockAddr)
    → IsGuid b.hv_addr.vmid
    → IsGuid b.hv_addr.service_id
    → ((e : NumError) × (sock_of h
            (record { scheme = codes "vsock"; host = string (vsock a); path = [] })
          ≡ err (in_vsock (VsockAddr.bad_number (string (vsock a)) e))))
      × (sock_of
            (record h { use_hvsock = true })
            (record { scheme = codes "hvsock"; host = string (hvsock b); path = [] })
          ≡ ok (hvsock (record { hv_addr = b.hv_addr; v_addr = default_addr.v_addr })))
      × (sock_of
            (record h { use_hvsock = false })
            (record { scheme = codes "hvsock"; host = string (hvsock b); path = [] })
          ≡ err (in_hvsock guid_in_vsock_mode))
unfolding sock_of string
sock_of-string h a b v w =
    let (e, bad) = vsock-refused h.darwin (Vsock.string a) (string-colon a) (string-dot a) in
    (
      (e, ap as_vsock bad),
      ap as_hvsock (parse-string b.hv_addr v w),
      ap as_hvsock (hvsock-refused b.hv_addr v w),
    )
