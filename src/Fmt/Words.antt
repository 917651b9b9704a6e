-- ===== src/Fmt/Words.antt =====
-- The hexadecimal form of a number that is given by its bytes.
use virtsock.Common.{
  ℕ, suc, ◌+◌, ◌*◌, ◌/◌, ◌%◌, ◌<◌, ◌≡◌, refl, ◌∙◌, [], ◌∷◌, ◌++◌, append_assoc, arith,
}
use virtsock.Fmt.Hex.{hex_digit, hex_fixed, hex_02, hex_08}

-- The last byte of a number is its last two digits.
pub hex_fixed-add :
    (w b m : ℕ) → b < 256 → hex_fixed (suc (suc w)) (b + 256 * m) ≡ hex_fixed w m ++ hex_02 b
unfolding hex_fixed hex_02
hex_fixed-add w b m h =
    let high : (b + 256 * m) / 16 / 16 ≡ m = omega arith in
    let mid : (b + 256 * m) / 16 % 16 ≡ b / 16 = omega arith in
    let low : (b + 256 * m) % 16 ≡ b % 16 = omega arith in
    rw (high, mid, low)
      (append_assoc (hex_fixed w m) (hex_digit (b / 16) ∷ []) (hex_digit (b % 16) ∷ []))

pub hex_08-bytes :
    (a b c d : ℕ)
    → a < 256
    → b < 256
    → c < 256
    → d < 256
    → hex_08 (a + 256 * (b + 256 * (c + 256 * (d + 256 * 0))))
      ≡ hex_02 d ++ (hex_02 c ++ (hex_02 b ++ hex_02 a))
unfolding hex_08
hex_08-bytes a b c d ha hb hc hd =
    let empty : hex_fixed 0 0 ≡ [] = unfold hex_fixed in refl in
    rw (hex_fixed-add 6 a (b + 256 * (c + 256 * (d + 256 * 0))) ha) (
      rw (hex_fixed-add 4 b (c + 256 * (d + 256 * 0)) hb) (
        rw (hex_fixed-add 2 c (d + 256 * 0) hc) (
          rw (hex_fixed-add 0 d 0 hd) (
            rw empty (
              append_assoc (hex_02 d ++ hex_02 c) (hex_02 b) (hex_02 a)
              ∙ append_assoc (hex_02 d) (hex_02 c) (hex_02 b ++ hex_02 a))))))
