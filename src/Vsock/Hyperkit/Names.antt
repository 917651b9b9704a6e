-- ===== src/Vsock/Hyperkit/Names.antt =====
-- The names of HyperKit's sockets tell the addresses apart, and what is sent to HyperKit too.
use virtsock.Common.{
  ℕ, zero, suc, ◌/◌, ◌%◌, ◌≡◌, ◌<◌, ◌^◌, refl, sym, ◌∙◌, false, List, [], ◌∷◌, ◌++◌, ◌==◌, Text,
  length, length-append, contains, arith,
}
use virtsock.Fmt.{hex_08, hex_digit, hex_fixed, hex_fixed-injective}
use virtsock.Strings.{contains-append}
use virtsock.Vsock.{address}
use virtsock.Vsock.Hyperkit.{
  Host, Removal, removed, absent, failed, Paths, Call, removes, listens, after_remove, listen,
}

length-hex_fixed : (w n : ℕ) → length (hex_fixed w n) ≡ w
unfolding hex_fixed
length-hex_fixed zero n = refl
length-hex_fixed (suc w) n = omega (
  arith,
  length-append (hex_fixed w (n / 16)) (hex_digit (n % 16) ∷ []),
  length-hex_fixed w (n / 16),
)

hex_fixed-no_slash : (w n : ℕ) → contains (hex_fixed w n) b'/' ≡ false
unfolding hex_fixed
hex_fixed-no_slash zero n = refl
hex_fixed-no_slash (suc w) n =
    let digit : (hex_digit (n % 16) == b'/') ≡ false = ground arith in
    contains-append (hex_fixed w (n / 16)) (hex_digit (n % 16) ∷ []) b'/'
    ∙ rw (hex_fixed-no_slash w (n / 16), digit) refl

append-injective :
    (s s' t t' : Text) → length s ≡ length s' → s ++ t ≡ s' ++ t' → (s ≡ s') × (t ≡ t')
append-injective [] [] t t' l e = (refl, e)
append-injective [] (c ∷ s') t t' l e = absurd (omega arith)
append-injective (c ∷ s) [] t t' l e = absurd (omega arith)
append-injective (c ∷ s) (d ∷ s') t t' l e =
    let (front, back) = append-injective s s' t t' (omega arith) (cc) in (cc, back)

-- Two addresses that print alike are the same.
pub address-injective :
    (cid port cid' port' : ℕ)
    → cid < 2 ^ 32
    → port < 2 ^ 32
    → cid' < 2 ^ 32
    → port' < 2 ^ 32
    → address cid port ≡ address cid' port'
    → (cid ≡ cid') × (port ≡ port')
unfolding address hex_08
address-injective cid port cid' port' hc hp hc' hp' e =
    let same : length (hex_fixed 8 cid) ≡ length (hex_fixed 8 cid') =
      length-hex_fixed 8 cid ∙ sym (length-hex_fixed 8 cid') in
    let (front, back) =
      append-injective (hex_fixed 8 cid) (hex_fixed 8 cid') (b'.' ∷ hex_fixed 8 port)
        (b'.' ∷ hex_fixed 8 port') same e in
    (
      hex_fixed-injective 8 cid cid' (omega arith) (omega arith) front,
      hex_fixed-injective 8 port port' (omega arith) (omega arith) (cc),
    )

-- The name of a file, other than `.` and `..`.
abbrev pub IsFileName : Text → Type 0
IsFileName s = (contains s b'/' ≡ false) × (2 < length s)

address-IsFileName : (cid port : ℕ) → IsFileName (address cid port)
unfolding address hex_08
address-IsFileName cid port = (
  contains-append (hex_fixed 8 cid) (b'.' ∷ hex_fixed 8 port) b'/'
      ∙ rw (hex_fixed-no_slash 8 cid, hex_fixed-no_slash 8 port) refl,
  omega (arith, length-append (hex_fixed 8 cid) (b'.' ∷ hex_fixed 8 port), length-hex_fixed 8 cid),
)

-- `filepath.Join` keeps the names of files in one directory apart.
pub record IsJoin (join : Text → Text → Text) : Type 0 where
  pub apart : (dir s t : Text) → IsFileName s → IsFileName t → join dir s ≡ join dir t → s ≡ t

same_removes : {s t : Text} {cs cs' : List Call} → removes s ∷ cs ≡ removes t ∷ cs' → s ≡ t
same_removes e = cc

removes_first :
    (h : Host) (sock : Text) (r : Removal)
    → (rest : List Call) × ((after_remove h sock r).0 ≡ removes sock ∷ rest)
removes_first h sock (failed e) = ([], refl)
removes_first h sock removed = (listens sock ∷ [], refl)
removes_first h sock absent = (listens sock ∷ [], refl)

-- Two calls of `Listen` that make the same system calls are for the same address: the socket that
-- `Listen` removes and creates is never that of another client ID or port. Both are of type `uint32`,
-- and `filepath.Join` keeps names of files apart.
listen-injective :
    (h : Host) (p : Paths) (cid port cid' port' : ℕ)
    → IsJoin h.join
    → cid < 2 ^ 32
    → port < 2 ^ 32
    → cid' < 2 ^ 32
    → port' < 2 ^ 32
    → (listen h p cid port).0 ≡ (listen h p cid' port').0
    → (cid ≡ cid') × (port ≡ port')
unfolding listen
listen-injective h p cid port cid' port' joins hc hp hc' hp' e =
    let s = h.join p.socket (address cid port) in
    let t = h.join p.socket (address cid' port') in
    let (rest, first) = removes_first h s (h.remove s) in
    let (rest', first') = removes_first h t (h.remove t) in
    let paths : s ≡ t = same_removes (sym first ∙ e ∙ first') in
    address-injective cid port cid' port' hc hp hc' hp' (
      joins.apart p.socket (address cid port) (address cid' port') (address-IsFileName cid port)
        (address-IsFileName cid' port') paths)
