-- ===== src/Fmt/Scan.antt =====
-- `fmt.Sprintf` and `fmt.Sscanf` for formats of `%02x` directives and literal characters.
use virtsock.Common.{
  ℕ, ◌+◌, ◌*◌, Bool, ◌&&◌, ◌||◌, Option, none, some, List, [], ◌∷◌, ◌++◌, leb, ◌==◌, if◌then◌else◌,
  Text, Result, ok, err, ◌>>=◌, set, get_or,
}
use virtsock.Fmt.Hex.{hex_value, hex_02}

pub data ScanError : Type 0 where
  unexpected_newline unexpected_eof expected_integer input_mismatch : ScanError

-- `%02x` of the byte at an index of the array that the arguments name, or a literal character.
pub data Directive : Type 0 where
  byte : ℕ → Directive
  literal : ℕ → Directive

abbrev within : ℕ → ℕ → ℕ → Bool
within lo hi c = leb lo c && leb c hi

unfoldable pub sprintf : List Directive → List ℕ → Text
sprintf [] g = []
sprintf (byte i ∷ ds) g = hex_02 (get_or g i 0) ++ sprintf ds g
sprintf (literal c ∷ ds) g = c ∷ sprintf ds g

-- `fmt.isSpace`, the newline aside.
abbrev pub is_space : ℕ → Bool
is_space c =
    within 0x09 0x0d c
    || c == 0x20
    || c == 0x85
    || c == 0xa0
    || c == 0x1680
    || within 0x2000 0x200a c
    || within 0x2028 0x2029 c
    || c == 0x202f
    || c == 0x205f
    || c == 0x3000

-- `SkipSpace`: `Sscanf` takes no newline for a space.
unfoldable pub skip_space : Text → Result ScanError Text
skip_space [] = ok []
skip_space (c ∷ s) =
    let rest = skip_space s in
    if c == b'\n' then err unexpected_newline else if is_space c then rest else ok (c ∷ s)

-- The second digit of a field of width two is optional.
abbrev pub second_digit : ℕ → Text → ℕ × Text
second_digit d [] = (d, [])
second_digit d (c ∷ s) = elim (hex_value c) [ none ↦ (d, c ∷ s) | some e ↦ (d * 16 + e, s) ]

unfoldable pub scan_digits : Text → Result ScanError (ℕ × Text)
scan_digits [] = err unexpected_eof
scan_digits (c ∷ s) = elim (hex_value c) [
  | none ↦ err expected_integer
  | some d ↦ ok (second_digit d s)
]

unfoldable pub scan_literal : ℕ → Text → Result ScanError Text
scan_literal c [] = err unexpected_eof
scan_literal c (x ∷ s) = if x == c then ok s else err input_mismatch

unfoldable pub scan_byte : Text → Result ScanError (ℕ × Text)
scan_byte s = do t ← skip_space s; scan_digits t

-- What has been stored stays stored when a later directive fails, and what follows the last
-- directive is not read.
unfoldable pub sscanf : List Directive → List ℕ → Text → List ℕ × Option ScanError
sscanf [] g s = (g, none)
sscanf (byte i ∷ ds) g s = elim (scan_byte s) [
  | err e ↦ (g, some e)
  | ok (b, t) ↦ sscanf ds (set g i b) t
]
sscanf (literal c ∷ ds) g s = elim (scan_literal c s) [ err e ↦ (g, some e) | ok t ↦ sscanf ds g t ]
