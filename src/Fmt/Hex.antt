-- ===== src/Fmt/Hex.antt =====
-- Hexadecimal digits: printing with a fixed width, and reading one digit.
use native.Mathlib.Nat.{pow-suc}
use virtsock.Common.{
  ℕ, zero, suc, ◌+◌, ◌-◌, ◌/◌, ◌%◌, ◌^◌, ◌<◌, ◌≡◌, refl, ◌&&◌, Option, none, some, [], ◌∷◌, ◌++◌,
  arith, ltb, leb, if◌then◌else◌, Text,
}

-- One lower-case digit.
abbrev pub hex_digit : ℕ → ℕ
hex_digit d = if ltb d 10 then b'0' + d else b'a' + (d - 10)

-- `%0wx` of a number below 16 ^ w: w digits, the most significant first.
unfoldable pub hex_fixed : ℕ → ℕ → Text
hex_fixed zero n = []
hex_fixed (suc w) n = hex_fixed w (n / 16) ++ (hex_digit (n % 16) ∷ [])

-- `%02x` of a byte, and `%08x` of a `uint32`.
unfoldable pub hex_02 : ℕ → Text
hex_02 b = hex_digit (b / 16) ∷ hex_digit (b % 16) ∷ []

unfoldable pub hex_08 : ℕ → Text
hex_08 n = hex_fixed 8 n

-- The value of a character among 0-9, a-f and A-F.
abbrev pub hex_value : ℕ → Option ℕ
hex_value c =
    if leb b'0' c && leb c b'9'
    then some (c - b'0')
    else if leb b'a' c && leb c b'f'
    then some (c - b'a' + 10)
    else if leb b'A' c && leb c b'F'
    then some (c - b'A' + 10)
    else none

pub hex_value-hex_digit : (d : ℕ) → d < 16 → hex_value (hex_digit d) ≡ some d
hex_value-hex_digit d h = ground arith

pub hex_value-lt : (c : ℕ) {d : ℕ} → hex_value c ≡ some d → d < 16
hex_value-lt c h = ground arith

pub hex_digit-injective : (d e : ℕ) → d < 16 → e < 16 → hex_digit d ≡ hex_digit e → d ≡ e
hex_digit-injective d e hd he h = ground arith

concat_inj : (s t : Text) {x y : ℕ} → s ++ x ∷ [] ≡ t ++ y ∷ [] → (s ≡ t) × (x ≡ y)
concat_inj [] [] e = (refl, cc)
concat_inj [] (b ∷ []) e = cc
concat_inj [] (b ∷ c ∷ t) e = cc
concat_inj (a ∷ []) [] e = cc
concat_inj (a ∷ c ∷ s) [] e = cc
concat_inj (a ∷ s) (b ∷ t) {x} {y} e =
    let tails : s ++ x ∷ [] ≡ t ++ y ∷ [] = cc in
    let (front, last) = concat_inj s t tails in (cc, last)

div-lt_pow : (w n : ℕ) → n < 16 ^ suc w → n / 16 < 16 ^ w
div-lt_pow w n h = omega (arith, pow-suc 16 w)

-- Equal printed numbers of one width are equal.
pub hex_fixed-injective :
    (w m n : ℕ) → m < 16 ^ w → n < 16 ^ w → hex_fixed w m ≡ hex_fixed w n → m ≡ n
unfolding hex_fixed
hex_fixed-injective zero m n hm hn e = omega arith
hex_fixed-injective (suc w) m n hm hn e =
    let (high, low) = concat_inj (hex_fixed w (m / 16)) (hex_fixed w (n / 16)) e in
    omega (
      arith,
      hex_fixed-injective w (m / 16) (n / 16) (div-lt_pow w m hm) (div-lt_pow w n hn) high,
      hex_digit-injective (m % 16) (n % 16) (omega arith) (omega arith) low,
    )
