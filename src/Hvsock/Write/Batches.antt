-- ===== src/Hvsock/Write/Batches.antt =====
-- What the batching loop of `Write` sends, and that it ends.
use virtsock.Common.{
  ℕ, zero, suc, ◌+◌, ◌-◌, ◌≤◌, ◌<◌, ◌≡◌, ◌≢◌, refl, sym, ap, ◌∙◌, Option, none, some, List, [], ◌∷◌,
  ◌++◌, arith, ltb, ◌==◌, Bytes, length, take, drop, All, concat, drop-drop, take-append-drop,
  length-take, length-drop, append_assoc, length-append, Bool-cases, inl, inr, length-eq-zero,
  take_all, drop_all, ==_iff, ltb→lt,
}
use virtsock.Hvsock.Write.{
  max_msg_size, min, WriteError, failed, short_write, after_batch, write_loop, write,
}

module _ {S E : Type 0} (limit : ℕ) (raw : Bytes → S → (ℕ × Option E) × S) where
  -- Each batch in turn is taken whole, from state `s` to state `t`.
  abbrev pub Accepted : S → List Bytes → S → Type 0
  Accepted s [] t = s ≡ t
  Accepted s (c ∷ cs) t = (u : S) × (raw c s ≡ ((length c, none), u)) × Accepted u cs t

  -- Why the loop stops, with `rest` not sent and the writer in state `s`.
  abbrev pub Ending : Bytes → S → Option (WriteError E) → S → Type 0
  Ending rest s none t = (rest ≡ []) × (s ≡ t)
  Ending rest s (some (failed e)) t =
      (rest ≢ []) × ((n : ℕ) × (raw (take limit rest) s ≡ ((n, some e), t)))
  Ending rest s (some (short_write n b)) t =
      (raw (take limit rest) s ≡ ((n, none), t)) × (b ≡ length (take limit rest)) × (n ≢ b)

  pub record Outcome (base : ℕ) (buf : Bytes) (s : S) (written : ℕ) (e : Option (WriteError E))
      (t : S) : Type 0 where
    pub sent : List Bytes
    pub rest : Bytes
    pub mid : S
    pub splits : concat sent ++ rest ≡ buf
    pub counted : written ≡ base + length (concat sent)
    pub bounded : All (λ c. (0 < length c) × (length c ≤ limit)) sent
    pub accepted : Accepted s sent mid
    pub ending : Ending rest mid e t

  abbrev pub Returns : ℕ → Bytes → S → Option ((ℕ × Option (WriteError E)) × S) → Type 0
  Returns base buf s r =
      (w : ℕ) × (e : Option (WriteError E)) × (t : S) × (r ≡ some ((w, e), t))
      × Outcome base buf s w e t

  batch_bounds :
      (rest : Bytes)
      → 0 < limit
      → rest ≢ []
      → (0 < length (take limit rest)) × (length (take limit rest) ≤ limit)
  batch_bounds [] pos ne = absurd (ne refl)
  batch_bounds (x ∷ rest) pos ne = omega (arith, length-take limit (x ∷ rest))

  Outcome-batch :
      {base : ℕ} (rest : Bytes) {s u t : S} {w : ℕ} {e : Option (WriteError E)}
      → 0 < limit
      → rest ≢ []
      → raw (take limit rest) s ≡ ((length (take limit rest), none), u)
      → Outcome (base + length (take limit rest)) (drop limit rest) u w e t
      → Outcome base rest s w e t
  Outcome-batch {base} rest {s} {u} {t} {w} pos ne taken o = record {
    sent = take limit rest ∷ o.sent;
    rest = o.rest;
    mid = o.mid;
    splits =
        append_assoc (take limit rest) (concat o.sent) o.rest
        ∙ ap (λ r. take limit rest ++ r) o.splits
        ∙ take-append-drop limit rest;
    counted = omega (arith, o.counted, length-append (take limit rest) (concat o.sent));
    bounded = (batch_bounds rest pos ne, o.bounded);
    accepted = (u, taken, o.accepted);
    ending = o.ending;
  }

  stopped :
      {base : ℕ} {rest : Bytes} {s t : S} {e : Option (WriteError E)}
      → Ending rest s e t
      → Outcome base rest s base e t
  stopped {base} {rest} {s} end = record {
    sent = [];
    rest = rest;
    mid = s;
    splits = refl;
    counted = omega arith;
    bounded = tt;
    accepted = refl;
    ending = end;
  }

  min_cases :
      (xs : Bytes) (k : ℕ)
      → length xs ≡ k
      → (take (min k limit) xs ≡ take limit xs)
        × (drop (min k limit) xs ≡ drop limit xs)
        × (min k limit ≡ length (take limit xs))
  unfolding min
  min_cases xs k l = elim (Bool-cases (ltb k limit)) [
    | inl few ↦
        let small : length xs ≤ limit = omega (arith, ltb→lt) in
        rw few (
          take_all k xs (omega arith) ∙ sym (take_all limit xs small),
          drop_all k xs (omega arith) ∙ sym (drop_all limit xs small),
          sym l ∙ sym (ap length (take_all limit xs small)),
        )
    | inr many ↦ rw many (refl, refl, ground (arith, length-take limit xs))
  ]

  round :
      (base b : ℕ) (rest : Bytes) (s : S) (r : (ℕ × Option E) × S)
      → (next : ℕ → S → Option ((ℕ × Option (WriteError E)) × S)) → 0 < limit
      → rest ≢ []
      → b ≡ length (take limit rest)
      → raw (take limit rest) s ≡ r
      → ((t : S) → Returns (base + b) (drop limit rest) t (next b t))
      → Returns base rest s (after_batch raw base b r next)
  round base b rest s ((n, some e), t) next pos ne q called more =
      (base, some (failed e), t, refl, stopped (ne, (n, called)))
  round base b rest s ((n, none), t) next pos ne q called more = elim (Bool-cases (n == b)) [
    | inl whole ↦
        let same : n ≡ b = (==_iff n b).0 whole in
        let (w, e, u, eq, o) = more t in
        let taken : raw (take limit rest) s ≡ ((length (take limit rest), none), t) =
          called ∙ ap (λ m. ((m, none), t)) (same ∙ q) in
        (w, e, u, rw whole (rw same eq), Outcome-batch rest pos ne taken (rw (← q) o))
    | inr short ↦ (base, some (short_write n b), t, rw short, stopped (called, q, ground arith))
  ]

  loop-Returns :
      (fuel : ℕ) (buf : Bytes) (base k : ℕ) (s : S) (rest : Bytes)
      → 0 < limit
      → rest ≡ drop base buf
      → length rest ≡ k
      → k ≤ fuel
      → Returns base rest s (write_loop raw limit fuel buf base k s)
  unfolding write_loop
  loop-Returns fuel buf base zero s rest pos d l f =
      (base, none, s, refl, stopped (length-eq-zero rest l, refl))
  loop-Returns zero buf base (suc k) s rest pos d l f = absurd (omega arith)
  loop-Returns (suc fuel) buf base (suc k) s rest pos d l f =
      let (taken, dropped, size) = min_cases rest (suc k) l in
      let m = min (suc k) limit in
      let ne : rest ≢ [] = ground arith in
      let progress : 0 < m = rw size (batch_bounds rest pos ne).0 in
      rw (← d) (
        rw taken (
          round base m rest s (raw (take limit rest) s)
            (λ n t. write_loop raw limit fuel buf (base + n) (suc k - n) t) pos ne size refl
            λ t.
              loop-Returns fuel buf (base + m) (suc k - m) t (drop limit rest) pos
                (sym dropped ∙ ap (drop m) d ∙ drop-drop base m buf)
                (omega (arith, ap length dropped, length-drop m rest)) (omega arith)))

module _ {S E : Type 0} (raw : Bytes → S → (ℕ × Option E) × S) where
  -- `Write` returns on every buffer. What it sent is a prefix of the buffer, cut into batches of 1
  -- to 8192 bytes that the raw write took whole and in order, and the count that it returns is the
  -- length of that prefix. With no error the prefix is the whole buffer; otherwise the raw write
  -- failed on the batch that follows, or took a number of bytes other than the batch's length.
  pub write-Returns : (buf : Bytes) (s : S) → Returns max_msg_size raw 0 buf s (write raw buf s)
  unfolding write
  write-Returns buf s =
      loop-Returns max_msg_size raw (length buf) buf 0 (length buf) s buf (omega arith) refl refl
        (omega arith)
