-- ===== src/Vsudd/Syslog/Frames.antt =====
-- The frames of `rfc5425Write`: what they put on a connection, and that they can be told apart.
use virtsock.Common.{
  ℕ, zero, suc, ◌+◌, ◌-◌, ◌*◌, ◌/◌, ◌%◌, ◌<◌, ◌≡◌, refl, sym, ap, ◌∙◌, false, ◌&&◌, Option, none,
  some, [], ◌∷◌, ◌++◌, append_assoc, append-nil, arith, ltb, leb, ◌==◌, if◌then◌else◌, Bytes,
  length, length-append, take, drop, take_all, Bool-cases, inl, inr,
}
use virtsock.Strings.{decimal, decimal_loop}
use virtsock.Vsudd.Network.{Network, Log, copy_bytes, delivered, open_conns}
use virtsock.Vsudd.Syslog.{rfc5425_write}

-- One frame: the length in decimal, a space, the message.
abbrev pub frame : Bytes → Bytes
frame m = decimal (length m) ++ b' ' ∷ m

-- A receiver: the digits up to a space give the length of the message that follows.
unfoldable pub read_frame : Bytes → ℕ → Option (Bytes × Bytes)
read_frame [] n = none
read_frame (c ∷ s) n =
    let rest = read_frame s (n * 10 + (c - b'0')) in
    if c == b' '
    then (if leb n (length s) then some (take n s, drop n s) else none)
    else if leb b'0' c && leb c b'9'
    then rest
    else none

read_frame-digit :
    (d n : ℕ) (s : Bytes) → d < 10 → read_frame ((b'0' + d) ∷ s) n ≡ read_frame s (n * 10 + d)
unfolding read_frame
read_frame-digit d n s h =
    let same : n * 10 + (b'0' + d - b'0') ≡ n * 10 + d = omega arith in rw same (ground arith)

read_frame-decimal :
    (fuel n : ℕ) (s : Bytes) → n < fuel → read_frame (decimal_loop fuel n ++ s) 0 ≡ read_frame s n
unfolding decimal_loop
read_frame-decimal zero n s h = absurd (omega arith)
read_frame-decimal (suc fuel) n s h = elim (Bool-cases (ltb n 10)) [
  | inl small ↦ rw small (read_frame-digit n 0 s (ground arith) ∙ ap (read_frame s) (omega arith))
  | inr big ↦ rw big (
      rw (append_assoc (decimal_loop fuel (n / 10)) ((b'0' + n % 10) ∷ []) s) (
        read_frame-decimal fuel (n / 10) ((b'0' + n % 10) ∷ s) (ground arith)
        ∙ read_frame-digit (n % 10) (n / 10) s (omega arith)
        ∙ ap (read_frame s) (omega arith)))
]

take-drop-append :
    (m rest : Bytes) → (take (length m) (m ++ rest) ≡ m) × (drop (length m) (m ++ rest) ≡ rest)
take-drop-append [] rest = (refl, refl)
take-drop-append (x ∷ m) rest = let (t, d) = take-drop-append m rest in (ap (◌∷◌ x) t, d)

read_frame-space : (m rest : Bytes) → read_frame (b' ' ∷ (m ++ rest)) (length m) ≡ some (m, rest)
unfolding read_frame
read_frame-space m rest =
    let (taken, dropped) = take-drop-append m rest in
    rw (taken, dropped) (ground (arith, length-append m rest))

-- The receiver takes the first message off a stream of frames, whatever follows and whatever bytes
-- the message holds.
pub read_frame-frame : (m rest : Bytes) → read_frame (frame m ++ rest) 0 ≡ some (m, rest)
unfolding decimal
read_frame-frame m rest =
    ap (λ s. read_frame s 0) (append_assoc (decimal (length m)) (b' ' ∷ m) rest)
    ∙ read_frame-decimal (suc (length m)) (length m) (b' ' ∷ (m ++ rest)) (omega arith)
    ∙ read_frame-space m rest

-- A copy that reports no error has delivered all of its bytes.
pub copy_bytes-delivered :
    (net : Network) (c : ℕ) (bs : Bytes) (log : Log)
    → (copy_bytes net c bs log).0 ≡ false
    → delivered c (copy_bytes net c bs log).1 ≡ delivered c log ++ bs
unfolding copy_bytes delivered
copy_bytes-delivered net c [] log e = sym (append-nil (delivered c log))
copy_bytes-delivered net c (b ∷ bs) log e =
    ground (arith, take_all (net.on_write log c (b ∷ bs)).0 (b ∷ bs))

pub rfc5425_write-delivered :
    (net : Network) (c : ℕ) (m : Bytes) (log : Log)
    → (rfc5425_write net c m log).0 ≡ false
    → delivered c (rfc5425_write net c m log).1 ≡ delivered c log ++ frame m
unfolding rfc5425_write
rfc5425_write-delivered net c m log e =
    let header = decimal (length m) ++ (b' ' ∷ []) in
    let sent = copy_bytes net c header log in
    ground (
      arith,
      copy_bytes-delivered net c header log,
      copy_bytes-delivered net c m sent.1,
      append_assoc (delivered c log) header m,
      append_assoc (decimal (length m)) (b' ' ∷ []) m,
    )

pub copy_bytes-open_conns :
    (net : Network) (c : ℕ) (bs : Bytes) (log : Log)
    → open_conns (copy_bytes net c bs log).1 ≡ open_conns log
unfolding copy_bytes open_conns
copy_bytes-open_conns net c [] log = refl
copy_bytes-open_conns net c (b ∷ bs) log = refl

pub rfc5425_write-open_conns :
    (net : Network) (c : ℕ) (m : Bytes) (log : Log)
    → open_conns (rfc5425_write net c m log).1 ≡ open_conns log
unfolding rfc5425_write
rfc5425_write-open_conns net c m log =
    let header = copy_bytes net c (decimal (length m) ++ (b' ' ∷ [])) log in
    ground (
      arith,
      copy_bytes-open_conns net c (decimal (length m) ++ (b' ' ∷ [])) log,
      copy_bytes-open_conns net c m header.1,
    )

-- `rfc5425Write` that reports no error has added to what was delivered on its connection bytes from
-- which a receiver, whatever follows them, takes exactly the message, of any length and content.
pub rfc5425_write-read_frame :
    (net : Network) (c : ℕ) (m : Bytes) (log : Log)
    → (rfc5425_write net c m log).0 ≡ false
    → (x : Bytes) × (delivered c (rfc5425_write net c m log).1 ≡ delivered c log ++ x)
      × ((rest : Bytes) → read_frame (x ++ rest) 0 ≡ some (m, rest))
rfc5425_write-read_frame net c m log e =
    (frame m, rfc5425_write-delivered net c m log e, read_frame-frame m)
