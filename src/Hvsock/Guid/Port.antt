-- ===== src/Hvsock/Guid/Port.antt =====
-- Ports of GUIDs: `Port` against the textual form that its documentation describes.
use virtsock.Common.{
  ℕ, none, append-nil, [], ◌+◌, ◌*◌, ◌/◌, ◌%◌, ◌^◌, ◌<◌, ◌≡◌, ◌↔◌, ap, sym, ◌∙◌, List, ◌∷◌, ◌++◌,
  arith, Text, codes, equal_iff, drop, ok,
}
use virtsock.Fmt.{hex_08, hex_08-bytes}
use virtsock.Hvsock.Guid.{Guid, IsGuid, template, from_string, string, port}
use virtsock.Hvsock.Guid.RoundTrip.{from_string-string, string-injective}

-- What follows the port in the template.
abbrev pub suffix : Text
suffix = codes "-facb-11e6-bd58-64006a7986d3"

-- The service GUID of a port: the port's bytes, least significant first, and the template's rest.
abbrev pub of_port : ℕ → Guid
of_port p = p % 256 ∷ p / 256 % 256 ∷ p / 65536 % 256 ∷ p / 16777216 % 256 ∷ drop 4 template

pub of_port-IsGuid : (p : ℕ) → IsGuid (of_port p)
unfolding from_string
of_port-IsGuid p = omega arith

bytes_of :
    (p : ℕ)
    → p < 2 ^ 32
    → p
      ≡ p % 256
        + 256 * (p / 256 % 256 + 256 * (p / 65536 % 256 + 256 * (p / 16777216 % 256 + 256 * 0)))
bytes_of p h = omega arith

pub string-of_port : (p : ℕ) → p < 2 ^ 32 → string (of_port p) ≡ hex_08 p ++ suffix
unfolding from_string string
string-of_port p h = sym (
    ap (λ s. s ++ suffix)
      (ap hex_08 (bytes_of p h)
        ∙ hex_08-bytes (p % 256) (p / 256 % 256) (p / 65536 % 256) (p / 16777216 % 256)
            (omega arith) (omega arith) (omega arith) (omega arith)))

pub port-of_port : (p : ℕ) → p < 2 ^ 32 → port (of_port p) ≡ ok p
unfolding port from_string
port-of_port p h = ap ok (sym (bytes_of p h))

pub port-eq-ok :
    (a b c d : ℕ) (rest : List ℕ) {p : ℕ}
    → port (a ∷ b ∷ c ∷ d ∷ rest) ≡ ok p
    → (rest ≡ drop 4 template) × (a + 256 * (b + 256 * (c + 256 * (d + 256 * 0))) ≡ p)
unfolding port
port-eq-ok a b c d rest e = ground (arith, equal_iff rest (drop 4 template))

pub eq_of_port : (g : Guid) {p : ℕ} → IsGuid g → port g ≡ ok p → (p < 2 ^ 32) × (g ≡ of_port p)
eq_of_port (a ∷ b ∷ c ∷ d ∷ rest) {p} v e =
    let (tail, value) = port-eq-ok a b c d rest e in
    let first : a ≡ p % 256 = omega arith in
    let second : b ≡ p / 256 % 256 = omega arith in
    let third : c ≡ p / 65536 % 256 = omega arith in
    let fourth : d ≡ p / 16777216 % 256 = omega arith in (omega arith, cc)
eq_of_port _ v e = absurd (omega arith)

-- `Port` of a GUID is a number exactly when that number is a `uint32` and the GUID prints as its
-- eight hexadecimal digits followed by "-facb-11e6-bd58-64006a7986d3".
pub port-ok_iff :
    (g : Guid) (p : ℕ)
    → IsGuid g
    → (port g ≡ ok p) ↔ ((p < 2 ^ 32) × (string g ≡ hex_08 p ++ suffix))
port-ok_iff g p v = (forward, backward)
  where
    forward : port g ≡ ok p → (p < 2 ^ 32) × (string g ≡ hex_08 p ++ suffix)
    forward e =
        let (small, same) = eq_of_port g v e in (small, ap string same ∙ string-of_port p small)

    backward : (p < 2 ^ 32) × (string g ≡ hex_08 p ++ suffix) → port g ≡ ok p
    backward (small, e) =
        ap port
          (string-injective g (of_port p) v (of_port-IsGuid p) (e ∙ sym (string-of_port p small)))
        ∙ port-of_port p small

-- A port that is written as eight hexadecimal digits in the place of the template's first group is
-- read back from that text by `GUIDFromString` and `Port`, whatever text follows.
port-from_string :
    (p : ℕ) (rest : Text) → p < 2 ^ 32 → port (from_string ((hex_08 p ++ suffix) ++ rest)).0 ≡ ok p
port-from_string p rest h =
    ap (λ s. port (from_string (s ++ rest)).0) (sym (string-of_port p h))
    ∙ ap (λ r. port r.0) (from_string-string (of_port p) rest (of_port-IsGuid p))
    ∙ port-of_port p h

pub from_string-of_port :
    (p : ℕ) → p < 2 ^ 32 → from_string (hex_08 p ++ suffix) ≡ (of_port p, none)
from_string-of_port p h =
    ap from_string
      (sym (append-nil (hex_08 p ++ suffix)) ∙ ap (λ s. s ++ []) (sym (string-of_port p h)))
    ∙ from_string-string (of_port p) [] (of_port-IsGuid p)
