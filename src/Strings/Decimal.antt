-- ===== src/Strings/Decimal.antt =====
-- `strconv.ParseUint` of base 10 and 32 bits, and the decimal form of a number.
use virtsock.Common.{
  ℕ, zero, suc, ◌+◌, ◌-◌, ◌*◌, ◌/◌, ◌%◌, ◌^◌, ◌<◌, ◌≤◌, ◌≡◌, refl, true, false, ◌||◌, [], ◌∷◌, ◌++◌,
  arith, ltb, if◌then◌else◌, Text, Result, ok, err, contains, append_assoc, Bool-cases, inl, inr,
  ◌≢◌, sym, ap, ◌∙◌, append-nil,
}

pub data NumError : Type 0 where
  bad_syntax out_of_range : NumError

abbrev pub max_uint32 : ℕ
max_uint32 = 2 ^ 32 - 1

-- The loop of `ParseUint`: each character is checked before the value grows.
pub parse_digits : Text → ℕ → Result NumError ℕ
parse_digits [] n = ok n
parse_digits (c ∷ s) n =
    let m = n * 10 + (c - b'0') in
    let rest = parse_digits s m in
    if ltb c b'0' || ltb b'9' c
    then err bad_syntax
    else if ltb max_uint32 m
    then err out_of_range
    else rest

unfoldable pub parse_uint : Text → Result NumError ℕ
unfolding parse_digits
parse_uint [] = err bad_syntax
parse_uint (c ∷ s) = parse_digits (c ∷ s) 0

-- A parsed number fits in 32 bits.
parse_digits-le :
    (s : Text) (n : ℕ) {m : ℕ} → n ≤ max_uint32 → parse_digits s n ≡ ok m → m ≤ max_uint32
unfolding parse_digits
parse_digits-le [] n h e = ground arith
parse_digits-le (c ∷ s) n {m} h e = ground (arith, parse_digits-le s (n * 10 + (c - b'0')) {m = m})

pub parse_uint-lt : (s : Text) {m : ℕ} → parse_uint s ≡ ok m → m < 2 ^ 32
unfolding parse_uint
parse_uint-lt [] e = cc
parse_uint-lt (c ∷ s) e = omega (arith, parse_digits-le (c ∷ s) 0 (omega arith) e)

-- A text that parses has digits only.
pub parse_digits-contains :
    (s : Text) (n x : ℕ) {m : ℕ}
    → ltb x b'0' || ltb b'9' x ≡ true
    → parse_digits s n ≡ ok m
    → contains s x ≡ false
unfolding parse_digits
parse_digits-contains [] n x h e = refl
parse_digits-contains (c ∷ s) n x {m} h e =
    ground (arith, parse_digits-contains s (n * 10 + (c - b'0')) x {m = m} h)

pub parse_uint-contains :
    (s : Text) (x : ℕ) {m : ℕ}
    → ltb x b'0' || ltb b'9' x ≡ true
    → parse_uint s ≡ ok m
    → contains s x ≡ false
unfolding parse_uint
parse_uint-contains [] x h e = refl
parse_uint-contains (c ∷ s) x h e = parse_digits-contains (c ∷ s) 0 x h e

-- `%d`: the digits of a number, most significant first. `n + 1` rounds are enough.
unfoldable pub decimal_loop : ℕ → ℕ → Text
decimal_loop zero n = []
decimal_loop (suc fuel) n =
    let front = decimal_loop fuel (n / 10) in
    if ltb n 10 then (b'0' + n) ∷ [] else front ++ (b'0' + n % 10) ∷ []

unfoldable pub decimal : ℕ → Text
decimal n = decimal_loop (suc n) n

parse_digits-digit :
    (d n : ℕ) (s : Text)
    → d < 10
    → n * 10 + d ≤ max_uint32
    → parse_digits ((b'0' + d) ∷ s) n ≡ parse_digits s (n * 10 + d)
unfolding parse_digits
parse_digits-digit d n s lt le =
    let value : n * 10 + (b'0' + d - b'0') ≡ n * 10 + d = omega arith in rw value (ground arith)

parse_digits-decimal_loop :
    (fuel n : ℕ) (s : Text)
    → n < fuel
    → n ≤ max_uint32
    → parse_digits (decimal_loop fuel n ++ s) 0 ≡ parse_digits s n
unfolding decimal_loop
parse_digits-decimal_loop zero n s lt le = absurd (omega arith)
parse_digits-decimal_loop (suc fuel) n s lt le = elim (Bool-cases (ltb n 10)) [
  | inl small ↦
      let less : n < 10 = ground arith in
      let sum : 0 * 10 + n ≡ n = omega arith in
      rw small (parse_digits-digit n 0 s less (omega arith) ∙ ap (parse_digits s) sum)
  | inr large ↦
      let more : 10 ≤ n = ground arith in
      let lt : n / 10 < fuel = omega arith in
      let sum : n / 10 * 10 + n % 10 ≡ n = omega arith in
      rw large (
        rw (append_assoc (decimal_loop fuel (n / 10)) ((b'0' + n % 10) ∷ []) s) (
          parse_digits-decimal_loop fuel (n / 10) ((b'0' + n % 10) ∷ s) lt (omega arith)
          ∙ parse_digits-digit (n % 10) (n / 10) s (omega arith) (omega arith)
          ∙ ap (parse_digits s) sum))
]

parse_uint-parse_digits :
    (s : Text) {n : ℕ} → s ≢ [] → parse_digits s 0 ≡ ok n → parse_uint s ≡ ok n
unfolding parse_uint
parse_uint-parse_digits [] some e = absurd (some refl)
parse_uint-parse_digits (c ∷ s) some e = e

snoc-cons : (s : Text) (c : ℕ) → s ++ c ∷ [] ≢ []
snoc-cons [] c e = cc
snoc-cons (d ∷ s) c e = cc

decimal-cons : (n : ℕ) → decimal n ≢ []
unfolding decimal decimal_loop
decimal-cons n e = elim (Bool-cases (ltb n 10)) [
  | inl small ↦ let is : ◌≡◌ {A = Text} ((b'0' + n) ∷ []) [] = rw small at e in cc
  | inr large ↦ snoc-cons (decimal_loop n (n / 10)) (b'0' + n % 10) (rw large at e)
]

-- A number of 32 bits is read back from its decimal form.
pub parse_uint-decimal : (n : ℕ) → n < 2 ^ 32 → parse_uint (decimal n) ≡ ok n
unfolding decimal parse_digits
parse_uint-decimal n lt = parse_uint-parse_digits (decimal n) (decimal-cons n) (
    ap (λ s. parse_digits s 0) (sym (append-nil (decimal n)))
    ∙ parse_digits-decimal_loop (suc n) n [] (omega arith) (omega arith))
