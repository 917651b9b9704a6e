-- ===== src/Hvsock/Guid.antt =====
-- GUIDs: pkg/hvsock/hvsock.go. A `GUID` is the list of its sixteen bytes.
pub mod Port
pub mod RoundTrip
pub mod Tests
use virtsock.Common.{
  ℕ, ◌+◌, ◌*◌, ◌<◌, ◌≡◌, refl, Option, none, some, List, [], ◌∷◌, ◌++◌, Result, ok, err, replicate,
  equal, take, drop, get_or, codes, Text, length, All, if◌then◌else◌, map,
}
use virtsock.Fmt.{
  ScanError, Directive, byte, literal, sscanf, scan_byte, scan_literal, skip_space, scan_digits,
  sprintf, hex_02,
}

abbrev pub Guid : Type 0
Guid = List ℕ

-- What the Go type `[16]byte` holds.
abbrev pub IsGuid : Guid → Type 0
IsGuid g = (length g ≡ 16) × All (λ b. b < 256) g

-- `var g GUID`.
abbrev pub blank : Guid
blank = replicate 16 0

-- The format of `Sscanf` with its destinations.
abbrev pub scan_format : List Directive
scan_format =
    byte 3
    ∷ byte 2
    ∷ byte 1
    ∷ byte 0
    ∷ literal b'-'
    ∷ byte 5
    ∷ byte 4
    ∷ literal b'-'
    ∷ byte 7
    ∷ byte 6
    ∷ literal b'-'
    ∷ byte 8
    ∷ byte 9
    ∷ literal b'-'
    ∷ byte 10
    ∷ byte 11
    ∷ byte 12
    ∷ byte 13
    ∷ byte 14
    ∷ byte 15
    ∷ []

-- `GUIDFromString`: what has been read is returned together with an error.
unfoldable pub from_string : Text → Guid × Option ScanError
unfolding sscanf scan_byte scan_literal skip_space scan_digits
from_string s = sscanf scan_format blank s

-- The format of `Sprintf` with its arguments.
abbrev pub string_format : List Directive
string_format =
    byte 3
    ∷ byte 2
    ∷ byte 1
    ∷ byte 0
    ∷ literal b'-'
    ∷ byte 5
    ∷ byte 4
    ∷ literal b'-'
    ∷ byte 7
    ∷ byte 6
    ∷ literal b'-'
    ∷ byte 8
    ∷ byte 9
    ∷ literal b'-'
    ∷ byte 10
    ∷ byte 11
    ∷ byte 12
    ∷ byte 13
    ∷ byte 14
    ∷ byte 15
    ∷ []

-- `String`.
unfoldable pub string : Guid → Text
unfolding sprintf hex_02
string g = sprintf string_format g

-- `guidTemplate`.
abbrev pub template : Guid
unfolding from_string
template = (from_string (codes "00000000-facb-11e6-bd58-64006a7986d3")).0

-- `binary.LittleEndian.Uint32`.
abbrev pub little_endian : List ℕ → ℕ
little_endian [] = 0
little_endian (b ∷ bs) = b + 256 * little_endian bs

pub data PortError : Type 0 where
  does_not_conform : Guid → PortError

-- `Port`.
unfoldable pub port : Guid → Result PortError ℕ
unfolding from_string
port g =
    if equal (drop 4 g) (drop 4 template)
    then ok (little_endian (take 4 g))
    else err (does_not_conform g)
