-- ===== src/Stress/Echo/Digest.antt =====
-- `md5Hash` of cmd/sock_stress/utils.go, over the two methods of `hash.Hash` that it calls.
use virtsock.Common.{
  ℕ, zero, suc, ◌≡◌, refl, ap, Option, none, some, [], ◌∷◌, Bytes, length, replicate, ◌==◌,
  if◌then◌else◌, arith,
}

-- The loop that copies a slice into an array of `n` bytes, which is zero to begin with; `none` is the
-- panic of an index that is out of range.
abbrev pub with_byte : ℕ → Option Bytes → Option Bytes
with_byte b none = none
with_byte b (some r) = some (b ∷ r)

unfoldable pub fill : ℕ → Bytes → Option Bytes
fill n [] = some (replicate n 0)
fill zero (b ∷ s) = none
fill (suc n) (b ∷ s) = with_byte b (fill n s)

-- `md5Hash`, on `Size` and what `Sum` gives; `none` is also the call of `log.Fatalln`.
unfoldable pub md5_hash : ℕ → Bytes → Option Bytes
unfolding fill
md5_hash size sum = if size == 16 then fill 16 sum else none

fill-length : (n : ℕ) (s : Bytes) → length s ≡ n → fill n s ≡ some s
unfolding fill
fill-length zero [] e = refl
fill-length zero (b ∷ s) e = absurd (omega arith)
fill-length (suc n) [] e = absurd (omega arith)
fill-length (suc n) (b ∷ s) e = ap (with_byte b) (fill-length n s (omega arith))

-- A sum of md5, which has sixteen bytes, is given back as it is, so that comparing two such arrays
-- compares the sums.
md5_hash-sum : (sum : Bytes) → length sum ≡ 16 → md5_hash 16 sum ≡ some sum
unfolding md5_hash
md5_hash-sum sum e = fill-length 16 sum e
