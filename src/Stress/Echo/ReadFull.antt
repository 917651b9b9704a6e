-- ===== src/Stress/Echo/ReadFull.antt =====
-- `readFull` of cmd/sock_stress/stream_echo.go, over a reader with a state of its own. The bytes
-- are left out: a read is given the room left in the buffer and answers with a count and an error.
use virtsock.Common.{
  ℕ, zero, suc, ◌+◌, ◌-◌, ◌≡◌, ◌<◌, ◌≤◌, refl, ap, Option, none, some, ltb, leb, if◌then◌else◌,
  arith, Bool-cases, inl, inr,
}

-- The errors of a read: `io.EOF`, or another.
pub data ReadError (E : Type 0) : Type 0 where
  eof : ReadError E
  other : E → ReadError E

pub data FullError (E : Type 0) : Type 0 where
  unexpected_eof : ℕ → ℕ → FullError E
  error_after : ℕ → ℕ → ReadError E → FullError E

-- The switch after the loop.
unfoldable pub conclude : {E : Type 0} → ℕ → ℕ → Option (ReadError E) → Option (FullError E)
conclude min n none = none
conclude min n (some eof) =
    if leb min n
    then none
    else (if ltb 0 n then some (unexpected_eof n min) else some (error_after n min eof))
conclude min n (some (other e)) = if leb min n then none else some (error_after n min (other e))

module _ {S E : Type 0} (read : ℕ → S → (ℕ × Option (ReadError E)) × S) where
  -- `for n < min && err == nil`; `none` means that the fuel ran out.
  pub read_loop : ℕ → ℕ → ℕ → Option (ReadError E) → S → Option ((ℕ × Option (ReadError E)) × S)
  read_loop fuel min n (some e) s = some ((n, some e), s)
  read_loop zero min n none s = if ltb n min then none else some ((n, none), s)
  read_loop (suc fuel) min n none s =
      let r = read (min - n) s in
      let rest = read_loop fuel min (n + r.0.0) r.0.1 r.1 in
      if ltb n min then rest else some ((n, none), s)

  abbrev pub with_error :
      ℕ → Option ((ℕ × Option (ReadError E)) × S) → Option ((ℕ × Option (FullError E)) × S)
  with_error min none = none
  with_error min (some ((n, e), s)) = some ((n, conclude min n e), s)

  -- `readFull`, with `min = len(buf)`.
  unfoldable pub read_full : ℕ → ℕ → S → Option ((ℕ × Option (FullError E)) × S)
  read_full fuel min s = with_error min (read_loop fuel min 0 none s)

  -- The contract of `io.Reader`: a read fills at most the room that it is given, and one that
  -- fills nothing, with room, has an error.
  abbrev pub IsReader : Type 0
  IsReader =
      (m : ℕ) (s : S) → ((read m s).0.0 ≤ m) × ((read m s).0.1 ≡ none → 0 < m → 0 < (read m s).0.0)

  -- What a result says of its error.
  abbrev pub Verdict : ℕ → ℕ → Option (FullError E) → Type 0
  Verdict min n none = n ≡ min
  Verdict min n (some (unexpected_eof a b)) = (a ≡ n) × (b ≡ min) × (0 < n) × (n < min)
  Verdict min n (some (error_after a b e)) = (a ≡ n) × (b ≡ min) × (n < min) × (e ≡ eof → n ≡ 0)

  conclude-Verdict :
      (min n : ℕ) (e : Option (ReadError E))
      → n ≤ min
      → (e ≡ none → n ≡ min)
      → Verdict min n (conclude min n e)
  unfolding conclude
  conclude-Verdict min n none le full = full refl
  conclude-Verdict min n (some eof) le full = elim (Bool-cases (leb min n)) [
    | inl all ↦ rw all (ground arith)
    | inr some_left ↦ rw some_left (elim (Bool-cases (ltb 0 n)) [
      | inl any ↦ rw any (refl, refl, ground arith, ground arith)
      | inr nothing ↦ rw nothing (refl, refl, ground arith, λ _. ground arith)
    ])
  ]
  conclude-Verdict min n (some (other x)) le full = elim (Bool-cases (leb min n)) [
    | inl all ↦ rw all (ground arith)
    | inr some_left ↦ rw some_left (refl, refl, ground arith, λ q. cc)
  ]

  read_loop_lem :
      (fuel min n : ℕ) (e : Option (ReadError E)) (s : S)
      → IsReader
      → n ≤ min
      → (e ≡ none → min - n ≤ fuel)
      → (r : (ℕ × Option (ReadError E)) × S) × (read_loop fuel min n e s ≡ some r)
        × (r.0.0 ≤ min)
        × (r.0.1 ≡ none → r.0.0 ≡ min)
  unfolding read_loop
  read_loop_lem fuel min n (some e) s reader le enough = (((n, some e), s), refl, le, λ q. cc)
  read_loop_lem zero min n none s reader le enough =
      (((n, none), s), ground (arith, enough refl), le, λ _. omega (arith, enough refl))
  read_loop_lem (suc fuel) min n none s reader le enough =
      let r = read (min - n) s in
      elim (Bool-cases (ltb n min)) [
        | inl more ↦ rw more (
            read_loop_lem fuel min (n + r.0.0) r.0.1 r.1 reader
              (omega (arith, (reader (min - n) s).0))
              λ q. omega (arith, enough refl, (reader (min - n) s).1 q (ground arith)))
        | inr full ↦ rw full (((n, none), s), refl, le, λ _. ground arith)
      ]

module _ {S E : Type 0} (read : ℕ → S → (ℕ × Option (ReadError E)) × S) where
  -- Over a reader that meets the contract of `io.Reader`, one read for each byte of the buffer is
  -- enough for `readFull` to return. Without an error it has filled the buffer. "Unexpected EOF"
  -- means that some but not all of it was filled, and the count and the size in either message are
  -- those returned and asked for; a plain `io.EOF` is reported only when nothing was read.
  pub read_full-Verdict :
      (min : ℕ) (s : S)
      → IsReader read
      → (n : ℕ) × (e : Option (FullError E)) × (t : S) × (read_full read min min s
          ≡ some ((n, e), t))
        × Verdict read min n e
  unfolding read_full
  read_full-Verdict min s reader =
      let (((n, e), t), eq, le, full) =
        read_loop_lem read min min 0 none s reader (omega arith) (λ _. omega arith) in
      (n, conclude min n e, t, ap (with_error read min) eq, conclude-Verdict read min n e le full)
