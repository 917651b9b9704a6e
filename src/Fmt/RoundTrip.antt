-- ===== src/Fmt/RoundTrip.antt =====
-- `Sscanf` reads back what `Sprintf` wrote by the same format, and stores bytes only.
use virtsock.Common.{
  ℕ, ◌+◌, ◌*◌, ◌/◌, ◌%◌, ◌<◌, ◌≡◌, refl, ap, ◌∙◌, none, List, [], ◌∷◌, ◌++◌, append_assoc, arith,
  Text, ok, >>=-eq-ok, Result-cases, inl, inr, set, get_or, zero, suc, All,
}
use virtsock.Fmt.Hex.{hex_digit, hex_02, hex_value-hex_digit, hex_value-lt}
use virtsock.Fmt.Scan.{
  Directive, byte, literal, skip_space, scan_digits, scan_byte, scan_literal, sscanf, sprintf,
  second_digit,
}

abbrev pub AreBytes : List ℕ → Type 0
AreBytes = All (λ b. b < 256)

pub get_or-lt : (g : List ℕ) (i : ℕ) → AreBytes g → get_or g i 0 < 256
get_or-lt [] i h = omega arith
get_or-lt (b ∷ g) zero h = h.0
get_or-lt (b ∷ g) (suc i) h = get_or-lt g i h.1

skip_space-hex_digit :
    (d : ℕ) (s : Text) → d < 16 → skip_space (hex_digit d ∷ s) ≡ ok (hex_digit d ∷ s)
unfolding skip_space
skip_space-hex_digit d s h = ground arith

scan_digits-hex_digit :
    (d e : ℕ) (s : Text)
    → d < 16
    → e < 16
    → scan_digits (hex_digit d ∷ hex_digit e ∷ s) ≡ ok (d * 16 + e, s)
unfolding scan_digits
scan_digits-hex_digit d e s hd he =
    rw (hex_value-hex_digit d hd, scan_digits) (rw (hex_value-hex_digit e he, second_digit) refl)

pub scan_byte-hex_02 : (b : ℕ) (s : Text) → b < 256 → scan_byte (hex_02 b ++ s) ≡ ok (b, s)
unfolding scan_byte hex_02
scan_byte-hex_02 b s h =
    rw (skip_space-hex_digit (b / 16) (hex_digit (b % 16) ∷ s) (omega arith), scan_byte)
      (scan_digits-hex_digit (b / 16) (b % 16) s (omega arith) (omega arith)
        ∙ ap (λ v. ok (v, s)) (omega arith))

scan_literal-head : (c : ℕ) (s : Text) → scan_literal c (c ∷ s) ≡ ok s
unfolding scan_literal
scan_literal-head c s = ground arith

scan_digits-lt : (s : Text) {b : ℕ} {t : Text} → scan_digits s ≡ ok (b, t) → b < 256
unfolding scan_digits
scan_digits-lt [] e = cc
scan_digits-lt (c ∷ []) e = ground (arith, hex_value-lt c)
scan_digits-lt (c ∷ x ∷ s) e = ground (arith, hex_value-lt c, hex_value-lt x)

pub scan_byte-lt : (s : Text) {b : ℕ} {t : Text} → scan_byte s ≡ ok (b, t) → b < 256
unfolding scan_byte
scan_byte-lt s e =
    let (u, _, scanned) = >>=-eq-ok (skip_space s) scan_digits e in scan_digits-lt u scanned

-- What reading back by `ds` stores.
abbrev pub copied : List Directive → List ℕ → List ℕ → List ℕ
copied [] g d = d
copied (byte i ∷ ds) g d = copied ds g (set d i (get_or g i 0))
copied (literal c ∷ ds) g d = copied ds g d

pub sscanf-sprintf :
    (ds : List Directive) (g d : List ℕ) (rest : Text)
    → AreBytes g
    → sscanf ds d (sprintf ds g ++ rest) ≡ (copied ds g d, none)
unfolding sscanf sprintf
sscanf-sprintf [] g d rest h = refl
sscanf-sprintf (byte i ∷ ds) g d rest h =
    let b = get_or g i 0 in
    rw (append_assoc (hex_02 b) (sprintf ds g) rest) (
      rw (scan_byte-hex_02 b (sprintf ds g ++ rest) (get_or-lt g i h), sscanf)
        (sscanf-sprintf ds g (set d i b) rest h))
sscanf-sprintf (literal c ∷ ds) g d rest h =
    rw (scan_literal-head c (sprintf ds g ++ rest), sscanf) (sscanf-sprintf ds g d rest h)

-- What stores of bytes keep, `Sscanf` keeps, whatever the text.
module _ {ℓ} {P : List ℕ → Type ℓ}
    (keep : (d : List ℕ) (i b : ℕ) → P d → b < 256 → P (set d i b)) where
  pub sscanf_keeps : (ds : List Directive) (d : List ℕ) (s : Text) → P d → P (sscanf ds d s).0
  unfolding sscanf
  sscanf_keeps [] d s h = h
  sscanf_keeps (byte i ∷ ds) d s h = elim (Result-cases (scan_byte s)) [
    | inl ((b, t), e) ↦
        rw (e, sscanf) (sscanf_keeps ds (set d i b) t (keep d i b h (scan_byte-lt s e)))
    | inr (x, e) ↦ rw (e, sscanf) h
  ]
  sscanf_keeps (literal c ∷ ds) d s h = elim (Result-cases (scan_literal c s)) [
    | inl (t, e) ↦ rw (e, sscanf) (sscanf_keeps ds d t h)
    | inr (x, e) ↦ rw (e, sscanf) h
  ]
