-- ===== src/Strings/HostPort.antt =====
-- `net.SplitHostPort` and `strings.SplitN`.
use virtsock.Common.{
  ℕ, suc, ◌≡◌, refl, true, false, ◌||◌, [], ◌∷◌, ◌++◌, arith, ◌==◌, if◌then◌else◌, Text, Result, ok,
  err, contains, Option, none, some, take, drop, length, ◌∙◌, ap, get_or,
}

-- The first and the last place of a character.
pub index : Text → ℕ → Option ℕ
index [] c = none
index (x ∷ s) c =
    if x == c then some 0 else elim (index s c) [ none ↦ none | some i ↦ some (suc i) ]

pub last_index : Text → ℕ → Option ℕ
last_index [] c = none
last_index (x ∷ s) c = elim (last_index s c) [
  | none ↦ if x == c then some 0 else none
  | some i ↦ some (suc i)
]

pub data AddrError : Type 0 where
  missing_port too_many_colons missing_bracket unexpected_open unexpected_close : AddrError

-- The checks for stray brackets, behind a host that ends at `i`.
abbrev split_rest : Text → Text → Text → ℕ → Text → Result AddrError (Text × Text)
split_rest from_j from_k host i s =
    if contains from_j b'['
    then err unexpected_open
    else if contains from_k b']'
    then err unexpected_close
    else ok (host, drop (suc i) s)

-- A host in brackets: the first `]` stands right before the last colon.
abbrev split_bracketed : Text → ℕ → Option ℕ → Result AddrError (Text × Text)
split_bracketed s i none = err missing_bracket
split_bracketed s i (some end) =
    if suc end == length s
    then err missing_port
    else if suc end == i
    then split_rest (drop 1 s) (drop (suc end) s) (drop 1 (take end s)) i s
    else if get_or s (suc end) 0 == b':'
    then err too_many_colons
    else err missing_port

abbrev split_plain : Text → ℕ → Result AddrError (Text × Text)
split_plain s i =
    if contains (take i s) b':' then err too_many_colons else split_rest s s (take i s) i s

abbrev split_at : Text → Option ℕ → Result AddrError (Text × Text)
split_at s none = err missing_port
split_at s (some i) =
    if get_or s 0 0 == b'[' then split_bracketed s i (index s b']') else split_plain s i

unfoldable pub split_host_port : Text → Result AddrError (Text × Text)
unfolding index last_index
split_host_port s = split_at s (last_index s b':')

pub contains-append : (s t : Text) (c : ℕ) → contains (s ++ t) c ≡ contains s c || contains t c
contains-append [] t c = refl
contains-append (x ∷ s) t c = ground (arith, contains-append s t c)

pub contains_self : (s t : Text) (c : ℕ) → contains (s ++ c ∷ t) c ≡ true
contains_self [] t c = ground arith
contains_self (x ∷ s) t c = ground (arith, contains_self s t c)

last_index-none : (s : Text) (c : ℕ) → contains s c ≡ false → last_index s c ≡ none
unfolding last_index
last_index-none [] c h = refl
last_index-none (x ∷ s) c h = ground (arith, last_index-none s c)

last_index-append :
    (s t : Text) (c : ℕ) → contains t c ≡ false → last_index (s ++ c ∷ t) c ≡ some (length s)
unfolding last_index
last_index-append [] t c h = rw (last_index-none t c h, last_index) (ground arith)
last_index-append (x ∷ s) t c h = rw (last_index-append s t c h) refl

take-length : (s t : Text) → take (length s) (s ++ t) ≡ s
take-length [] t = refl
take-length (x ∷ s) t = ap (◌∷◌ x) (take-length s t)

drop-length : (s : Text) (c : ℕ) (t : Text) → drop (suc (length s)) (s ++ c ∷ t) ≡ t
drop-length [] c t = refl
drop-length (x ∷ s) c t = drop-length s c t

head-open : (s t : Text) → contains s b'[' ≡ false → (get_or (s ++ b':' ∷ t) 0 0 == b'[') ≡ false
head-open [] t h = refl
head-open (x ∷ s) t h = ground arith

-- Neither a colon nor a bracket.
pub record IsPlain (s : Text) : Type 0 where
  pub colon : contains s b':' ≡ false
  pub open_bracket : contains s b'[' ≡ false
  pub close_bracket : contains s b']' ≡ false

pub split_host_port-append :
    (host port : Text)
    → IsPlain host
    → IsPlain port
    → split_host_port (host ++ b':' ∷ port) ≡ ok (host, port)
unfolding split_host_port
split_host_port-append host port h p = rw (last_index-append host port b':' p.colon) (
    rw (head-open host port h.open_bracket) (
      rw (take-length host (b':' ∷ port), drop-length host b':' port)
        (rw h.colon (
          rw (none_in b'[' h.open_bracket p.open_bracket refl)
            (rw (none_in b']' h.close_bracket p.close_bracket refl) refl)))))
  where
    none_in :
        (c : ℕ)
        → contains host c ≡ false
        → contains port c ≡ false
        → (b':' == c) ≡ false
        → contains (host ++ b':' ∷ port) c ≡ false
    none_in c hh hp ne = contains-append host (b':' ∷ port) c ∙ rw (hh, hp, ne) refl
