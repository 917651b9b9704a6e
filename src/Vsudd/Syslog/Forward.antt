-- ===== src/Vsudd/Syslog/Forward.antt =====
-- `forwardSyslogDatagram`: who owns the connections, what reaches the host, what is repeated.
use virtsock.Common.{
  ℕ, zero, suc, ◌≡◌, refl, sym, ap, ◌∙◌, false, Option, none, some, List, [], ◌∷◌, ◌++◌, arith,
  ==_iff, Bytes, Text, Bool-cases, inl, inr, Option-cases, Result, ok, err, append-nil,
}
use virtsock.Vsudd.Network.{Network, Target, Log, open_conns, delivered, closed_read, remove}
use virtsock.Vsudd.Syslog.{
  State, Fatal, Round, fatal, continue, sent, send, send_new, round, round_on, dial_target,
  dial_result, replay, target, rfc5425_write, Outcome, died, forwarded, too_many_retries,
  forward_loop, forward, after_round,
}
use virtsock.Vsudd.Syslog.Frames.{frame, rfc5425_write-delivered, rfc5425_write-open_conns}

abbrev pub current : Option ℕ → List ℕ
current none = []
current (some c) = c ∷ []

-- The one connection that is open is the current one.
abbrev pub IsTidy : State → Type 0
IsTidy s = open_conns s.log ≡ current s.current_conn

-- The frames that precede a message on a new connection.
abbrev pub repeated : Option Bytes → Bytes
repeated none = []
repeated (some m) = frame m

-- `c` is the current connection, and the message is the last that it was sent.
pub record Delivered (buf before : Bytes) (c : ℕ) (t : State) : Type 0 where
  pub is_current : t.current_conn ≡ some c
  pub is_last : t.last_message ≡ some buf
  pub is_delivered : delivered c t.log ≡ before ++ frame buf

abbrev pub RoundTidy : Bytes → Round → Type 0
RoundTidy buf (fatal e t) = IsTidy t
RoundTidy buf (continue t) = (t.current_conn ≡ none) × (open_conns t.log ≡ [])
RoundTidy buf (sent t) = IsTidy t × ((before : Bytes) × (c : ℕ) × Delivered buf before c t)

remove_head : (c : ℕ) → remove c (c ∷ []) ≡ []
remove_head c = ground arith

send-RoundTidy :
    (net : Network) (buf : Bytes) (c : ℕ) (s : State)
    → s.current_conn ≡ some c
    → open_conns s.log ≡ c ∷ []
    → RoundTidy buf (send net buf c s)
unfolding send open_conns
send-RoundTidy net buf c s is own = elim (Bool-cases (rfc5425_write net c buf s.log).0) [
  | inl bad ↦
      rw bad (refl, ap (remove c) (rfc5425_write-open_conns net c buf s.log ∙ own) ∙ remove_head c)
  | inr good ↦ rw good (
    rfc5425_write-open_conns net c buf s.log ∙ own ∙ ap current (sym is),
    (
      delivered c s.log,
      c,
      record {
        is_current = is;
        is_last = refl;
        is_delivered = rfc5425_write-delivered net c buf s.log good;
      },
    ),
  )
]

replay-open_conns :
    (net : Network) (c : ℕ) (m : Option Bytes) (log : Log)
    → open_conns (replay net c m log).1 ≡ open_conns log
replay-open_conns net c none log = refl
replay-open_conns net c (some m) log = rfc5425_write-open_conns net c m log

send_new-RoundTidy :
    (net : Network) (buf : Bytes) (c : ℕ) (s : State)
    → s.current_conn ≡ none
    → open_conns s.log ≡ c ∷ []
    → RoundTidy buf (send_new net buf c s)
unfolding send_new open_conns
send_new-RoundTidy net buf c s is own =
    let log = closed_read c ∷ s.log in
    let kept = replay-open_conns net c s.last_message log in
    elim (Bool-cases (replay net c s.last_message log).0) [
      | inl bad ↦ rw bad (is, ap (remove c) (kept ∙ own) ∙ remove_head c)
      | inr good ↦ rw good (send-RoundTidy net buf c _ refl (kept ∙ own))
    ]

dial-RoundTidy :
    (net : Network) (buf : Bytes) (s : State) (t : Result Fatal Target)
    → s.current_conn ≡ none
    → open_conns s.log ≡ []
    → RoundTidy buf (dial_target net buf t s)
unfolding open_conns
dial-RoundTidy net buf s (err e) is own = own ∙ ap current (sym is)
dial-RoundTidy net buf s (ok t) is own = elim (Option-cases (net.on_dial s.log t)) [
  | inl q ↦ rw (q, dial_result) (is, own)
  | inr (c, q) ↦ rw (q, dial_result) (send_new-RoundTidy net buf c _ is (ap (◌∷◌ c) own))
]

round-RoundTidy :
    (net : Network) (buf : Bytes) (portstr : Text) (s : State) (c : Option ℕ)
    → s.current_conn ≡ c
    → IsTidy s
    → RoundTidy buf (round_on net buf portstr c s)
round-RoundTidy net buf portstr s none is tidy =
    dial-RoundTidy net buf s (target net.supported portstr) is (tidy ∙ ap current is)
round-RoundTidy net buf portstr s (some c) is tidy =
    send-RoundTidy net buf c s is (tidy ∙ ap current is)

abbrev pub OutcomeTidy : Bytes → Outcome → Type 0
OutcomeTidy buf (died e t) = IsTidy t
OutcomeTidy buf (forwarded t) = IsTidy t × ((before : Bytes) × (c : ℕ) × Delivered buf before c t)
OutcomeTidy buf (too_many_retries t) =
    (t.current_conn ≡ none) × (t.last_message ≡ none) × (open_conns t.log ≡ [])

abbrev Retries : Bytes → (State → Outcome) → Type 0
Retries buf next =
    (s : State) → s.current_conn ≡ none → open_conns s.log ≡ [] → OutcomeTidy buf (next s)

after_round-Tidy :
    (buf : Bytes) (next : State → Outcome) (r : Round)
    → Retries buf next
    → RoundTidy buf r
    → OutcomeTidy buf (after_round next r)
after_round-Tidy buf next (fatal e t) more tidy = tidy
after_round-Tidy buf next (continue t) more tidy = more t tidy.0 tidy.1
after_round-Tidy buf next (sent t) more tidy = tidy

loop-Retries :
    (tries : ℕ) (net : Network) (buf : Bytes) (portstr : Text)
    → Retries buf (forward_loop tries net buf portstr)
unfolding forward_loop round
loop-Retries zero net buf portstr s is own = (is, refl, own)
loop-Retries (suc tries) net buf portstr s is own =
    after_round-Tidy buf (forward_loop tries net buf portstr)
      (round_on net buf portstr s.current_conn s) (loop-Retries tries net buf portstr)
      (round-RoundTidy net buf portstr s s.current_conn refl (own ∙ ap current (sym is)))

-- From a state in which no connection but the current one is open, and whatever the network
-- answers: a forwarded datagram leaves its frame as the last bytes that were
-- delivered on the current connection, and itself as the message to repeat; after too many retries
-- there is no current connection and nothing to repeat; and in each case, a fatal error included,
-- every connection that was dialled and is not the current one has been closed.
pub forward-OutcomeTidy :
    (net : Network) (buf : Bytes) (portstr : Text) (s : State)
    → IsTidy s
    → OutcomeTidy buf (forward net buf portstr s)
unfolding forward forward_loop round
forward-OutcomeTidy net buf portstr s tidy =
    after_round-Tidy buf (forward_loop 1 net buf portstr)
      (round_on net buf portstr s.current_conn s) (loop-Retries 1 net buf portstr)
      (round-RoundTidy net buf portstr s s.current_conn refl tidy)

replay-delivered :
    (net : Network) (c : ℕ) (m : Option Bytes) (log : Log)
    → (replay net c m log).0 ≡ false
    → delivered c (replay net c m log).1 ≡ delivered c log ++ repeated m
replay-delivered net c none log e = sym (append-nil (delivered c log))
replay-delivered net c (some m) log e = rfc5425_write-delivered net c m log e

pub send-delivered :
    (net : Network) (buf : Bytes) (c : ℕ) (s t : State)
    → send net buf c s ≡ sent t
    → (delivered c t.log ≡ delivered c s.log ++ frame buf) × (t.current_conn ≡ s.current_conn)
unfolding send
send-delivered net buf c s t e = ground (arith, rfc5425_write-delivered net c buf s.log)

send_new-delivered :
    (net : Network) (buf : Bytes) (c : ℕ) (s t : State)
    → send_new net buf c s ≡ sent t
    → delivered c s.log ≡ []
    → (delivered c t.log ≡ repeated s.last_message ++ frame buf) × (t.current_conn ≡ some c)
unfolding send_new delivered
send_new-delivered net buf c s t e fresh =
    let log = closed_read c ∷ s.log in
    elim (Bool-cases (replay net c s.last_message log).0) [
      | inl bad ↦ ground arith
      | inr good ↦
          let fact = send-delivered net buf c _ t (rw good at e) in
          (
            fact.0
                ∙ ap (λ d. d ++ frame buf)
                    (replay-delivered net c s.last_message log good
                      ∙ ap (λ d. d ++ repeated s.last_message) fresh),
            fact.1,
          )
    ]

dial-delivered :
    (net : Network) (buf : Bytes) (s t : State) (q : Target) (r : Option ℕ)
    → dial_result net buf q r s ≡ sent t
    → (c : ℕ) × (t.current_conn ≡ some c)
      × (delivered c t.log ≡ repeated s.last_message ++ frame buf)
unfolding delivered
dial-delivered net buf s t q none e = cc
dial-delivered net buf s t q (some c) e =
    let (bytes, is) = send_new-delivered net buf c _ t e (rw ((==_iff c c).1 refl) refl) in
    (c, is, bytes)

pub target-delivered :
    (net : Network) (buf : Bytes) (s t : State) (q : Result Fatal Target)
    → dial_target net buf q s ≡ sent t
    → (c : ℕ) × (t.current_conn ≡ some c)
      × (delivered c t.log ≡ repeated s.last_message ++ frame buf)
target-delivered net buf s t (err x) e = cc
target-delivered net buf s t (ok q) e = dial-delivered net buf s t q (net.on_dial s.log q) e

-- A round that starts with no connection and sends its datagram has sent exactly two frames on the
-- connection that it dialled: the message to repeat, if there is one, and then the datagram.
round_repeats :
    (net : Network) (buf : Bytes) (portstr : Text) (s t : State)
    → s.current_conn ≡ none
    → round net buf portstr s ≡ sent t
    → (c : ℕ) × (t.current_conn ≡ some c)
      × (delivered c t.log ≡ repeated s.last_message ++ frame buf)
unfolding round
round_repeats net buf portstr s t is e =
    target-delivered net buf s t (target net.supported portstr)
      (ap (λ c. round_on net buf portstr c s) (sym is) ∙ e)
