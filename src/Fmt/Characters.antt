-- ===== src/Fmt/Characters.antt =====
-- Which characters a text of `Sprintf` holds.
use virtsock.Common.{
  zero, suc, ◌∙◌, ℕ, ◌/◌, ◌%◌, ◌<◌, ◌≡◌, refl, Bool, true, false, ◌||◌, List, [], ◌∷◌, arith, ◌==◌,
  contains, get_or,
}
use virtsock.Strings.{contains-append}
use virtsock.Fmt.Hex.{hex_digit, hex_02, hex_fixed, hex_08}
use virtsock.Fmt.Scan.{Directive, byte, literal, sprintf}
use virtsock.Fmt.RoundTrip.{AreBytes, get_or-lt}

abbrev pub has_literal : List Directive → ℕ → Bool
has_literal [] c = false
has_literal (byte i ∷ ds) c = has_literal ds c
has_literal (literal x ∷ ds) c = x == c || has_literal ds c

-- No digit is the character `c`.
abbrev pub IsNoDigit : ℕ → Type 0
IsNoDigit c = (d : ℕ) → d < 16 → (hex_digit d == c) ≡ false

pub sprintf-no_literal :
    (ds : List Directive) (g : List ℕ) (c : ℕ)
    → AreBytes g
    → IsNoDigit c
    → has_literal ds c ≡ false
    → contains (sprintf ds g) c ≡ false
unfolding sprintf hex_02
sprintf-no_literal [] g c h n e = refl
sprintf-no_literal (byte i ∷ ds) g c h n e =
    let b = get_or g i 0 in
    let lt : b < 256 = get_or-lt g i h in
    rw (n (b / 16) (omega arith), n (b % 16) (omega arith), sprintf-no_literal ds g c h n e) refl
sprintf-no_literal (literal x ∷ ds) g c h n e = ground (arith, sprintf-no_literal ds g c h n)

pub sprintf-literal :
    (ds : List Directive) (g : List ℕ) (c : ℕ)
    → has_literal ds c ≡ true
    → contains (sprintf ds g) c ≡ true
unfolding sprintf hex_02
sprintf-literal [] g c e = e
sprintf-literal (byte i ∷ ds) g c e = ground (arith, sprintf-literal ds g c e)
sprintf-literal (literal x ∷ ds) g c e = ground (arith, sprintf-literal ds g c)

hex_fixed-no_literal : (w n c : ℕ) → IsNoDigit c → contains (hex_fixed w n) c ≡ false
unfolding hex_fixed
hex_fixed-no_literal zero n c none_is = refl
hex_fixed-no_literal (suc w) n c none_is =
    contains-append (hex_fixed w (n / 16)) (hex_digit (n % 16) ∷ []) c
    ∙ rw (hex_fixed-no_literal w (n / 16) c none_is, none_is (n % 16) (omega arith)) refl

-- The eight digits of a number are hexadecimal.
pub hex_08-no_literal : (n c : ℕ) → IsNoDigit c → contains (hex_08 n) c ≡ false
unfolding hex_08
hex_08-no_literal n c none_is = hex_fixed-no_literal 8 n c none_is
