-- ===== src/Strings/Split.antt =====
-- `strings.SplitN`, for a separator of one character.
use virtsock.Common.{
  ℕ, zero, suc, Option, none, some, List, [], ◌∷◌, Text, ◌==◌, if◌then◌else◌, ◌++◌, ◌≡◌, refl, ap,
  false, contains, arith,
}

-- What stands before and after the first separator.
abbrev pub with_head : ℕ → Option (Text × Text) → Option (Text × Text)
with_head x none = none
with_head x (some (s, t)) = some (x ∷ s, t)

unfoldable pub cut_at : ℕ → Text → Option (Text × Text)
cut_at c [] = none
cut_at c (x ∷ s) = let rest = cut_at c s in if x == c then some ([], s) else with_head x rest

abbrev pub with_parts : Text → (Text → List Text) → Option (Text × Text) → List Text
with_parts s more none = s ∷ []
with_parts s more (some (before, after)) = before ∷ more after

-- At most `n` parts, of which the last holds all that is left.
unfoldable pub split_n : ℕ → Text → ℕ → List Text
split_n zero s c = []
split_n (suc zero) s c = s ∷ []
split_n (suc (suc n)) s c = with_parts s (λ t. split_n (suc n) t c) (cut_at c s)

pub cut_at-append :
    (c : ℕ) (s t : Text) → contains s c ≡ false → cut_at c (s ++ c ∷ t) ≡ some (s, t)
unfolding cut_at
cut_at-append c [] t h = ground arith
cut_at-append c (x ∷ s) t h = ground (arith, cut_at-append c s t)

pub cut_at-none : (c : ℕ) (s : Text) → contains s c ≡ false → cut_at c s ≡ none
unfolding cut_at
cut_at-none c [] h = refl
cut_at-none c (x ∷ s) h = ground (arith, cut_at-none c s)

pub split_n-append :
    (n : ℕ) (s t : Text) (c : ℕ)
    → contains s c ≡ false
    → split_n (suc (suc n)) (s ++ c ∷ t) c ≡ s ∷ split_n (suc n) t c
unfolding split_n
split_n-append n s t c h =
    ap (with_parts (s ++ c ∷ t) (λ u. split_n (suc n) u c)) (cut_at-append c s t h)

pub split_n-none :
    (n : ℕ) (s : Text) (c : ℕ) → contains s c ≡ false → split_n (suc (suc n)) s c ≡ s ∷ []
unfolding split_n
split_n-none n s c h = ap (with_parts s (λ u. split_n (suc n) u c)) (cut_at-none c s h)
