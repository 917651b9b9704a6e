-- ===== src/Vsudd/Syslog/Sessions.antt =====
-- What a receiver sees of `forwardSyslogDatagram`: sessions, each a list of messages. This is the
-- contract that the detailed model, with its connections and frames, is held against.
use virtsock.Common.{
  ℕ, zero, suc, ◌≡◌, refl, sym, ap, ◌∙◌, Option, none, some, List, [], ◌∷◌, ◌++◌, arith, Bytes,
  Text, Bool-cases, inl, inr, ◌⊎◌, Result, ok, err, append-nil, append_assoc, length,
}
use virtsock.Vsudd.Network.{Network, Target, delivered, closed_read}
use virtsock.Vsudd.Syslog.{
  State, Fatal, Round, fatal, continue, sent, send, send_new, round, round_on, dial_target,
  dial_result, replay, target, forwarded, forward_loop, forward, after_round,
}
use virtsock.Vsudd.Syslog.Frames.{frame, read_frame, read_frame-frame}
use virtsock.Vsudd.Syslog.Forward.{repeated, send-delivered, target-delivered}

-- The bytes of a session.
abbrev pub frames : List Bytes → Bytes
frames [] = []
frames (m ∷ ms) = frame m ++ frames ms

pub frames-append : (ms : List Bytes) (m : Bytes) → frames (ms ++ m ∷ []) ≡ frames ms ++ frame m
frames-append [] m = append-nil (frame m)
frames-append (x ∷ ms) m =
    ap (λ r. frame x ++ r) (frames-append ms m) ∙ sym (append_assoc (frame x) (frames ms) (frame m))

-- A receiver of a whole session.
abbrev frame_then : Bytes → Option (List Bytes) → Option (List Bytes)
frame_then m none = none
frame_then m (some ms) = some (m ∷ ms)

abbrev after_frame : (Bytes → Option (List Bytes)) → Option (Bytes × Bytes) → Option (List Bytes)
after_frame more none = none
after_frame more (some (m, rest)) = frame_then m (more rest)

pub read_frames : ℕ → Bytes → Option (List Bytes)
read_frames zero s = none
read_frames (suc n) [] = some []
read_frames (suc n) (c ∷ s) = after_frame (read_frames n) (read_frame (c ∷ s) 0)

-- What a state shows of the open session: none, or the messages that were framed on the current
-- connection.
abbrev pub Represents : State → Option (List Bytes) → Type 0
Represents s none = s.current_conn ≡ none
Represents s (some ms) = (c : ℕ) × (s.current_conn ≡ some c) × (delivered c s.log ≡ frames ms)

-- How a session may go on with a message: it is appended; or it opens a new session, alone or
-- behind the message before it.
pub data Push (buf : Bytes) (last : Option Bytes) (a : Option (List Bytes)) (ms : List Bytes)
    : Type 0 where
  appended : (before : List Bytes) → a ≡ some before → ms ≡ before ++ buf ∷ [] → Push buf last a ms
  reopened : ms ≡ buf ∷ [] → Push buf last a ms
  replayed : (m : Bytes) → last ≡ some m → ms ≡ m ∷ buf ∷ [] → Push buf last a ms

abbrev Pushes : Bytes → Option Bytes → Option (List Bytes) → State → Type 0
Pushes buf last a t = (ms : List Bytes) × Represents t (some ms) × Push buf last a ms

-- A message sent on a new connection.
on_new :
    (buf : Bytes) (last kept : Option Bytes) (a : Option (List Bytes)) (t : State)
    → (kept ≡ last) ⊎ (kept ≡ none)
    → (c : ℕ) × (t.current_conn ≡ some c) × (delivered c t.log ≡ repeated kept ++ frame buf)
    → Pushes buf last a t
on_new buf last none a t k (c, is, bytes) =
    (buf ∷ [], (c, is, bytes ∙ sym (append-nil (frame buf))), reopened refl)
on_new buf last (some m) a t (inl same) (c, is, bytes) = (
  m ∷ buf ∷ [],
  (c, is, bytes ∙ ap (λ r. frame m ++ r) (sym (append-nil (frame buf)))),
  replayed m (sym same) refl,
)
on_new buf last (some m) a t (inr gone) r = cc

continued : (u t : State) → continue u ≡ continue t → u ≡ t
continued u t e = cc

-- A round that has to go on has kept the message to repeat, or has no more message to repeat.
send-keeps :
    (net : Network) (buf : Bytes) (c : ℕ) (s t : State)
    → send net buf c s ≡ continue t
    → (t.last_message ≡ s.last_message) × (t.current_conn ≡ none)
unfolding send
send-keeps net buf c s t e = ground arith

send_new-keeps :
    (net : Network) (buf : Bytes) (c : ℕ) (s t : State)
    → s.current_conn ≡ none
    → send_new net buf c s ≡ continue t
    → ((t.last_message ≡ s.last_message) ⊎ (t.last_message ≡ none)) × (t.current_conn ≡ none)
unfolding send_new
send_new-keeps net buf c s t is e =
    let log = closed_read c ∷ s.log in
    elim (Bool-cases (replay net c s.last_message log).0) [
      | inl bad ↦
          let same = continued _ t (rw bad at e) in
          (inl (ap (λ u. u.last_message) (sym same)), ap (λ u. u.current_conn) (sym same) ∙ is)
      | inr good ↦ let kept = send-keeps net buf c _ t (rw good at e) in (inr kept.0, kept.1)
    ]

dial_target-keeps :
    (net : Network) (buf : Bytes) (s t : State) (q : Result Fatal Target)
    → s.current_conn ≡ none
    → dial_target net buf q s ≡ continue t
    → ((t.last_message ≡ s.last_message) ⊎ (t.last_message ≡ none)) × (t.current_conn ≡ none)
dial_target-keeps net buf s t (err x) is e = cc
dial_target-keeps net buf s t (ok q) is e = by_dial (net.on_dial s.log q) e
  where
    by_dial :
        (r : Option ℕ)
        → dial_result net buf q r s ≡ continue t
        → ((t.last_message ≡ s.last_message) ⊎ (t.last_message ≡ none)) × (t.current_conn ≡ none)
    by_dial none d =
        let same = continued _ t d in
        (inl (ap (λ u. u.last_message) (sym same)), ap (λ u. u.current_conn) (sym same) ∙ is)
    by_dial (some c) d = send_new-keeps net buf c _ t is d

round_on-keeps :
    (net : Network) (buf : Bytes) (portstr : Text) (s t : State) (c : Option ℕ)
    → s.current_conn ≡ c
    → round_on net buf portstr c s ≡ continue t
    → ((t.last_message ≡ s.last_message) ⊎ (t.last_message ≡ none)) × (t.current_conn ≡ none)
round_on-keeps net buf portstr s t none is e = dial_target-keeps net buf s t _ is e
round_on-keeps net buf portstr s t (some c) is e =
    let kept = send-keeps net buf c s t e in (inl kept.0, kept.1)

-- The last round, on a connection that is dialled in it.
last_round :
    (net : Network) (buf : Bytes) (portstr : Text) (s t : State) (last : Option Bytes)
    (a : Option (List Bytes))
    → s.current_conn ≡ none
    → (s.last_message ≡ last) ⊎ (s.last_message ≡ none)
    → forward_loop 1 net buf portstr s ≡ forwarded t
    → Pushes buf last a t
unfolding forward_loop round
last_round net buf portstr s t last a is kept e =
    by_round (round_on net buf portstr s.current_conn s) refl e
  where
    by_round :
        (r : Round)
        → round_on net buf portstr s.current_conn s ≡ r
        → after_round (forward_loop 0 net buf portstr) r ≡ forwarded t
        → Pushes buf last a t
    by_round (fatal x u) q d = cc
    by_round (continue u) q d = cc
    by_round (sent u) q d =
        let same : u ≡ t = cc in
        on_new buf last s.last_message a t kept (
          target-delivered net buf s t (target net.supported portstr)
            (ap (λ c. round_on net buf portstr c s) (sym is) ∙ q ∙ ap sent same))

-- A round that sends its datagram.
first_sent :
    (net : Network) (buf : Bytes) (portstr : Text) (s t : State) (a : Option (List Bytes))
    (c : Option ℕ)
    → s.current_conn ≡ c
    → Represents s a
    → round_on net buf portstr c s ≡ sent t
    → Pushes buf s.last_message a t
first_sent net buf portstr s t a none is shows e =
    on_new buf s.last_message s.last_message a t (inl refl)
      (target-delivered net buf s t (target net.supported portstr) e)
first_sent net buf portstr s t none (some c) is shows e = cc
first_sent net buf portstr s t (some ms) (some c) is (c', is', bytes) e =
    let same : c' ≡ c = cc in
    let (more, kept) = send-delivered net buf c s t e in
    (
      ms ++ buf ∷ [],
      (
        c,
        kept ∙ is,
        more
            ∙ ap (λ d. d ++ frame buf) (ap (λ x. delivered x s.log) (sym same) ∙ bytes)
            ∙ sym (frames-append ms buf),
      ),
      appended ms refl refl,
    )

-- `forwardSyslogDatagram` refines the contract of sessions, whatever the network answers: a datagram
-- that it reports as forwarded has been appended to the open session, or has opened a new one, alone
-- or behind the message that was kept to be repeated. Nothing else is put on the connection that is
-- then current.
pub forward-Push :
    (net : Network) (buf : Bytes) (portstr : Text) (s t : State) (a : Option (List Bytes))
    → Represents s a
    → forward net buf portstr s ≡ forwarded t
    → (ms : List Bytes) × Represents t (some ms) × Push buf s.last_message a ms
unfolding forward forward_loop round
forward-Push net buf portstr s t a shows e =
    by_round (round_on net buf portstr s.current_conn s) refl e
  where
    by_round :
        (r : Round)
        → round_on net buf portstr s.current_conn s ≡ r
        → after_round (forward_loop 1 net buf portstr) r ≡ forwarded t
        → Pushes buf s.last_message a t
    by_round (fatal x u) q d = cc
    by_round (continue u) q d =
        let (kept, lost) = round_on-keeps net buf portstr s u s.current_conn refl q in
        last_round net buf portstr u t s.last_message a lost kept d
    by_round (sent u) q d = first_sent net buf portstr s t a s.current_conn refl shows (q ∙ cc)

read_frames-cons :
    (n : ℕ) (s rest : Bytes) (m : Bytes) (ms : List Bytes)
    → read_frame s 0 ≡ some (m, rest)
    → read_frames n rest ≡ some ms
    → read_frames (suc n) s ≡ some (m ∷ ms)
unfolding read_frames read_frame
read_frames-cons n [] rest m ms first more = cc
read_frames-cons n (c ∷ s) rest m ms first more =
    ap (after_frame (read_frames n)) first ∙ ap (frame_then m) more

-- A receiver that reads a session frame by frame gets its messages, each whole and in order.
pub read_frames-frames : (ms : List Bytes) → read_frames (suc (length ms)) (frames ms) ≡ some ms
unfolding read_frames
read_frames-frames [] = refl
read_frames-frames (m ∷ ms) =
    read_frames-cons (suc (length ms)) (frames (m ∷ ms)) (frames ms) m ms
      (read_frame-frame m (frames ms)) (read_frames-frames ms)
