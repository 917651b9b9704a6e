-- ===== src/Stress/VsockAddr/Parse.antt =====
-- What `vsockParseSockStr` accepts, and what it makes of it.
use virtsock.Common.{
  Result, err, contains, subst, ◌⊎◌, inl, inr, Bool-cases, ℕ, Bool, true, false, ◌<◌, ◌^◌, ◌≡◌,
  refl, ◌∙◌, ok, >>=-eq-ok, [], ◌∷◌, ◌++◌, Text, arith,
}
use virtsock.Strings.{
  split_host_port, split_host_port-append, IsPlain, contains_self, parse_uint, parse_uint-lt,
  parse_uint-contains,
}
use virtsock.Vsock.{Addr}
use virtsock.Stress.VsockAddr.{
  Fatal, or_fatal, parse, parse_nonempty, default_addr, cut, number_or, vsock_port,
}

-- A decimal field, or an empty text for the default.
abbrev pub Field : ℕ → Text → ℕ → Type 0
Field default [] n = n ≡ default
Field default (c ∷ s) n = parse_uint (c ∷ s) ≡ ok n

number_or-Field : (d : ℕ) (s : Text) (n : ℕ) → Field d s n → number_or d s ≡ ok n
number_or-Field d [] n f = rw f
number_or-Field d (c ∷ s) n f = rw f

Field-IsPlain : (d : ℕ) (s : Text) (n : ℕ) → Field d s n → IsPlain s
Field-IsPlain d [] n f = record { colon = refl; open_bracket = refl; close_bracket = refl }
Field-IsPlain d (c ∷ s) n f = record {
  colon = parse_uint-contains (c ∷ s) b':' refl f;
  open_bracket = parse_uint-contains (c ∷ s) b'[' refl f;
  close_bracket = parse_uint-contains (c ∷ s) b']' refl f;
}

number_or-lt : (d : ℕ) (s : Text) {n : ℕ} → d < 2 ^ 32 → number_or d s ≡ ok n → n < 2 ^ 32
number_or-lt d [] h e = ground arith
number_or-lt d (c ∷ s) {n} h e = ground (arith, parse_uint-lt (c ∷ s) {m = n})

parse_nonempty-append :
    (darwin : Bool) (host port : Text)
    → parse darwin (host ++ b':' ∷ port) ≡ parse_nonempty darwin (host ++ b':' ∷ port)
unfolding parse
parse_nonempty-append darwin [] port = refl
parse_nonempty-append darwin (c ∷ host) port = refl

default-lt : (darwin : Bool) → (default_addr darwin).cid < 2 ^ 32
default-lt true = omega arith
default-lt false = omega arith

-- A text "CID:Port", with either part decimal or left out, is read as those two numbers, with the
-- defaults for what is left out; a text that is a decimal CID alone is read as that CID with the
-- default port.
pub parse_forms :
    (darwin : Bool) (host port : Text) (cid n : ℕ)
    → Field (default_addr darwin).cid host cid
    → Field vsock_port port n
    → (parse darwin (host ++ b':' ∷ port) ≡ ok (record { cid = cid; port = n }))
      × (parse darwin host ≡ ok (record { cid = cid; port = vsock_port }))
parse_forms darwin host port cid n f g = (with_colon, alone host f)
  where
    with_colon : parse darwin (host ++ b':' ∷ port) ≡ ok (record { cid = cid; port = n })
    with_colon =
        parse_nonempty-append darwin host port
        ∙ rw (contains_self host port b':') (
            rw
              (split_host_port-append host port (Field-IsPlain _ host cid f)
                (Field-IsPlain _ port n g))
              (rw (number_or-Field _ host cid f) (rw (number_or-Field _ port n g) refl)))

    alone :
        (s : Text)
        → Field (default_addr darwin).cid s cid
        → parse darwin s ≡ ok (record { cid = cid; port = vsock_port })
    alone [] e = unfold parse in rw e
    alone (c ∷ s) e =
        unfold parse in rw (Field-IsPlain (default_addr darwin).cid (c ∷ s) cid e).colon (rw e refl)

-- The text before and behind the colon, if there is one.
abbrev pub IsCut : Text → Text → Text → Type 0
IsCut s host port =
    ((contains s b':' ≡ false) × (host ≡ s) × (port ≡ []))
    ⊎ ((contains s b':' ≡ true) × (split_host_port s ≡ ok (host, port)))

or_fatal-ok :
    {E A : Type 0} (r : Result E A) (die : E → Fatal) {a : A} → or_fatal r die ≡ ok a → r ≡ ok a
or_fatal-ok (ok x) die e = cc
or_fatal-ok (err x) die e = cc

number_or-Field_of : (d : ℕ) (s : Text) {n : ℕ} → number_or d s ≡ ok n → Field d s n
number_or-Field_of d [] e = cc
number_or-Field_of d (c ∷ s) e = or_fatal-ok (parse_uint (c ∷ s)) _ e

cut-IsCut : (s : Text) {parts : Text × Text} → cut s ≡ ok parts → IsCut s parts.0 parts.1
cut-IsCut s {parts} e = elim (Bool-cases (contains s b':')) [
  | inr none ↦
      let same : ◌≡◌ {A = Result Fatal (Text × Text)} (ok (s, [])) (ok parts) = rw none at e in
      inl (none, cc, cc)
  | inl colon ↦ inr (colon, or_fatal-ok (split_host_port s) _ (rw colon at e))
]

-- What `vsockParseSockStr` returns for a text: the CID is the number that is written before the
-- colon, or in the whole text if there is none, and the port the number behind it, each with its
-- default where nothing is written; both have 32 bits.
pub parse-Reads :
    (darwin : Bool) (s : Text) (a : Addr)
    → parse darwin s ≡ ok a
    → ((host port : Text) × IsCut s host port
        × Field (default_addr darwin).cid host a.cid
        × Field vsock_port port a.port)
      × (a.cid < 2 ^ 32)
      × (a.port < 2 ^ 32)
unfolding parse
parse-Reads darwin [] a e = (([], [], inl (refl, refl, refl), cc, cc), ground arith, ground arith)
parse-Reads darwin (c ∷ s) a e =
    let (parts, cut_is, e1) = >>=-eq-ok (cut (c ∷ s)) _ e in
    let (cid, cid_is, e2) = >>=-eq-ok (number_or (default_addr darwin).cid parts.0) _ e1 in
    let (port, port_is, e3) = >>=-eq-ok (number_or vsock_port parts.1) _ e2 in
    let cid_lt = number_or-lt _ parts.0 (default-lt darwin) cid_is in
    let port_lt = number_or-lt _ parts.1 (omega arith) port_is in
    let its_cid : cid ≡ a.cid = cc in
    let its_port : port ≡ a.port = cc in
    (
      (
        parts.0,
        parts.1,
        cut-IsCut (c ∷ s) cut_is,
        subst (Field _ parts.0) its_cid (number_or-Field_of _ parts.0 cid_is),
        subst (Field _ parts.1) its_port (number_or-Field_of _ parts.1 port_is),
      ),
      ground arith,
      ground arith,
    )
