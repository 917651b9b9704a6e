-- ===== src/Vsudd/Forwards/Laws.antt =====
-- What the flag `-inport` accepts, and that its two ways of naming a port agree.
use virtsock.Common.{
  ℕ, ◌<◌, ◌^◌, ◌≡◌, refl, ap, ◌∙◌, true, false, List, [], ◌∷◌, ◌++◌, ok, err, Text, codes, contains,
}
use virtsock.Fmt.{hex_08}
use virtsock.Strings.{
  split_n, split_n-append, split_n-none, parse_uint, parse_uint-contains, contains_self,
}
use virtsock.Hvsock.Guid.Port.{suffix, of_port, from_string-of_port, port-of_port}
use virtsock.Hvsock.Addr.{guid_zero}
use virtsock.Vsock.{cid_any}
use virtsock.Vsudd.Network.{hvsock, vsock}
use virtsock.Vsudd.Syslog.{target, port_target}
use virtsock.Vsudd.Forwards.{
  Forward, set_value, add_parts, failed_to_parse, listener, port_listener,
}

-- A value "port:net:path", whose port and net hold no colon, adds one forward of these three parts after the others, where the path
-- may hold colons itself, and a value without two colons is an error.
set_value-forms :
    (fs : List Forward) (v n u : Text)
    → contains v b':' ≡ false
    → contains n b':' ≡ false
    → (set_value fs (v ++ b':' ∷ (n ++ b':' ∷ u))
        ≡ ok (fs ++ record { vsock_port = v; net = n; usock = u } ∷ []))
      × (set_value fs (v ++ b':' ∷ n) ≡ err (failed_to_parse (v ++ b':' ∷ n)))
      × (set_value fs v ≡ err (failed_to_parse v))
unfolding set_value split_n
set_value-forms fs v n u hv hn = (
  ap (add_parts fs (v ++ b':' ∷ (n ++ b':' ∷ u)))
      (split_n-append 1 v (n ++ b':' ∷ u) b':' hv ∙ ap (◌∷◌ v) (split_n-append 0 n u b':' hn)),
  ap (add_parts fs (v ++ b':' ∷ n))
      (split_n-append 1 v n b':' hv ∙ ap (◌∷◌ v) (split_n-none 0 n b':' hn)),
  ap (add_parts fs v) (split_n-none 1 v b':' hv),
)

-- A service port may be written in decimal or as the GUID of the template. Where the Hyper-V
-- bindings are not in use, both ways listen on the same virtio port and forward syslog to the same
-- port of the host; where they are, the GUID is what is listened on and dialled.
pub listener-agrees :
    (p : ℕ) (s usock : Text)
    → p < 2 ^ 32
    → parse_uint s ≡ ok p
    → (listener false
          (record { vsock_port = hex_08 p ++ suffix; net = codes "unix"; usock = usock })
        ≡ ok (vsock cid_any p, true))
      × (listener false (record { vsock_port = s; net = codes "unix"; usock = usock })
          ≡ ok (vsock cid_any p, false))
      × (listener true
            (record { vsock_port = hex_08 p ++ suffix; net = codes "unix"; usock = usock })
          ≡ ok (hvsock guid_zero (of_port p), true))
      × (target false (hex_08 p ++ suffix) ≡ target false s)
      × (target true (hex_08 p ++ suffix) ≡ ok (hvsock guid_zero (of_port p)))
unfolding listener target
listener-agrees p s usock h e =
    let dash : contains (hex_08 p ++ suffix) b'-' ≡ true = contains_self (hex_08 p) _ b'-' in
    let plain : contains s b'-' ≡ false = parse_uint-contains s b'-' refl e in
    let read = from_string-of_port p h in
    let is_port = port-of_port p h in
    (
      rw dash (rw read (ap port_listener is_port)),
      rw plain (rw e refl),
      rw dash (rw read refl),
      rw (dash, plain) (rw (read, e) (ap port_target is_port)),
      rw dash (rw read refl),
    )
