-- ===== src/Vsudd/Syslog/Handle/Delivery.antt =====
-- What the loop of `handleSyslogForward` keeps, and what it delivers over a network that works.
use virtsock.Common.{
  ℕ, suc, ◌≡◌, refl, sym, ap, ◌∙◌, subst, false, Option, none, some, List, [], ◌∷◌, ◌++◌, map,
  arith, Bytes, Text, ok, take, length, append_assoc, append-nil,
}
use virtsock.Strings.{decimal}
use virtsock.Vsudd.Network.{Network, Target, Log, copy_bytes, delivered, closed_read}
use virtsock.Vsudd.Syslog.{
  State, Outcome, died, forwarded, too_many_retries, forward, forward_loop, round, round_on, send,
  send_new, sent, dial_target, dial_result, target, rfc5425_write, after_round, replay,
}
use virtsock.Vsudd.Syslog.Frames.{frame}
use virtsock.Vsudd.Syslog.Forward.{
  IsTidy, current, OutcomeTidy, repeated, forward-OutcomeTidy, send-delivered, target-delivered,
}
use virtsock.Vsudd.Syslog.Sessions.{Represents, frames-append, read_frames, read_frames-frames}
use virtsock.Vsudd.Syslog.Handle.{
  Ended, reading, failed_to_read, fatal, handle_loop, after_forward, buf_size,
}

abbrev EndsTidy : Ended → Type 0
EndsTidy (reading t) = IsTidy t
EndsTidy (failed_to_read t) = IsTidy t
EndsTidy (fatal e t) = IsTidy t

after_forward-EndsTidy :
    (buf : Bytes) (next : State → Ended) (o : Outcome)
    → ((t : State) → IsTidy t → EndsTidy (next t))
    → OutcomeTidy buf o
    → EndsTidy (after_forward next o)
after_forward-EndsTidy buf next (died e t) more tidy = tidy
after_forward-EndsTidy buf next (forwarded t) more tidy = more t tidy.0
after_forward-EndsTidy buf next (too_many_retries t) more tidy =
    more t (tidy.2 ∙ sym (ap current tidy.0))

-- Whatever is read and whatever the network answers, and also when a read or a fatal error ends the
-- loop: no connection is open but the current one.
handle_loop-EndsTidy :
    (net : Network) (portstr : Text) (reads : List (Option Bytes)) (s : State)
    → IsTidy s
    → EndsTidy (handle_loop net portstr reads s)
unfolding handle_loop
handle_loop-EndsTidy net portstr [] s tidy = tidy
handle_loop-EndsTidy net portstr (none ∷ reads) s tidy = tidy
handle_loop-EndsTidy net portstr (some d ∷ reads) s tidy =
    after_forward-EndsTidy (take buf_size d) (handle_loop net portstr reads) _
      (λ t. handle_loop-EndsTidy net portstr reads t)
      (forward-OutcomeTidy net (take buf_size d) portstr s tidy)

-- Every dial gives a connection and every write is whole.
pub record IsReliable (net : Network) : Type 0 where
  pub dials : (log : Log) (t : Target) → (c : ℕ) × (net.on_dial log t ≡ some c)
  pub writes : (log : Log) (c : ℕ) (bs : Bytes) → net.on_write log c bs ≡ (length bs, false)

module _ (net : Network) (reliable : IsReliable net) where
  copy_bytes-whole : (c : ℕ) (bs : Bytes) (log : Log) → (copy_bytes net c bs log).0 ≡ false
  unfolding copy_bytes
  copy_bytes-whole c [] log = refl
  copy_bytes-whole c (b ∷ bs) log = ground (arith, reliable.writes log c (b ∷ bs))

  rfc5425_write-whole : (c : ℕ) (m : Bytes) (log : Log) → (rfc5425_write net c m log).0 ≡ false
  unfolding rfc5425_write
  rfc5425_write-whole c m log =
      let header = decimal (length m) ++ (b' ' ∷ []) in
      rw (copy_bytes-whole c header log) (copy_bytes-whole c m (copy_bytes net c header log).1)

  send-whole : (buf : Bytes) (c : ℕ) (s : State) → (t : State) × (send net buf c s ≡ sent t)
  unfolding send
  send-whole buf c s = (
    record s { last_message = some buf; log = (rfc5425_write net c buf s.log).1 },
    rw (rfc5425_write-whole c buf s.log) refl,
  )

  -- On an open session, and with no session and nothing to repeat.
  forward-appends :
      (buf : Bytes) (portstr : Text) (s : State) (ms : List Bytes)
      → Represents s (some ms)
      → (t : State) × (forward net buf portstr s ≡ forwarded t)
        × Represents t (some (ms ++ buf ∷ []))
  unfolding forward forward_loop round
  forward-appends buf portstr s ms (c, is, bytes) =
      let (t, e) = send-whole buf c s in
      let (more, kept) = send-delivered net buf c s t e in
      (
        t,
        ap (λ x. after_round (forward_loop 1 net buf portstr) (round_on net buf portstr x s)) is
            ∙ ap (after_round (forward_loop 1 net buf portstr)) e,
        (c, kept ∙ is, more ∙ ap (λ d. d ++ frame buf) bytes ∙ sym (frames-append ms buf)),
      )

  send_new-whole :
      (buf : Bytes) (c : ℕ) (s : State)
      → s.last_message ≡ none
      → (t : State) × (send_new net buf c s ≡ sent t)
  unfolding send_new
  send_new-whole buf c s last =
      let log = closed_read c ∷ s.log in
      let nothing : replay net c s.last_message log ≡ (false, log) =
        ap (λ m. replay net c m log) last in
      rw nothing (send-whole buf c _)

  dial_target-whole :
      (buf : Bytes) (s : State) (q : Target)
      → s.last_message ≡ none
      → (t : State) × (dial_target net buf (ok q) s ≡ sent t)
  dial_target-whole buf s q last =
      let (c, d) = reliable.dials s.log q in rw (d, dial_result) (send_new-whole buf c _ last)

  forward-opens :
      (buf : Bytes) (portstr : Text) (s : State) (q : Target)
      → target net.supported portstr ≡ ok q
      → s.current_conn ≡ none
      → s.last_message ≡ none
      → (t : State) × (forward net buf portstr s ≡ forwarded t) × Represents t (some (buf ∷ []))
  unfolding forward forward_loop round
  forward-opens buf portstr s q is_target is last =
      let (t, e) = dial_target-whole buf s q last in
      let (c, now, bytes) = target-delivered net buf s t (ok q) e in
      (
        t,
        ap (λ x. after_round (forward_loop 1 net buf portstr) (round_on net buf portstr x s)) is
            ∙ ap (λ x. after_round (forward_loop 1 net buf portstr) (dial_target net buf x s))
                is_target
            ∙ ap (after_round (forward_loop 1 net buf portstr)) e,
        (c, now, bytes ∙ ap (λ m. repeated m ++ frame buf) last ∙ sym (append-nil (frame buf))),
      )

  handle_loop-appends :
      (portstr : Text) (ds : List Bytes) (s : State) (ms : List Bytes)
      → Represents s (some ms)
      → (t : State) × (handle_loop net portstr (map some ds) s ≡ reading t)
        × Represents t (some (ms ++ map (take buf_size) ds))
  unfolding handle_loop
  handle_loop-appends portstr [] s ms r =
      (s, refl, subst (λ x. Represents s (some x)) (sym (append-nil ms)) r)
  handle_loop-appends portstr (d ∷ ds) s ms r =
      let m = take buf_size d in
      let (t, e, shows) = forward-appends m portstr s ms r in
      let (u, f, all) = handle_loop-appends portstr ds t (ms ++ m ∷ []) shows in
      (
        u,
        ap (after_forward (handle_loop net portstr (map some ds))) e ∙ f,
        subst (λ x. Represents u (some x)) (append_assoc ms (m ∷ []) (map (take buf_size) ds)) all,
      )

  -- Over a network on which every dial and every write succeeds, with a port string that names a
  -- port, and from a state with no connection and nothing to repeat: the loop forwards every datagram
  -- that it reads, on one connection. A receiver that reads that connection frame by frame gets the
  -- datagrams in order, each once, and each cut to 4096 bytes if it was longer.
  pub handle_loop-read_frames :
      (portstr : Text) (q : Target) (d : Bytes) (ds : List Bytes) (s : State)
      → target net.supported portstr ≡ ok q
      → s.current_conn ≡ none
      → s.last_message ≡ none
      → (t : State) × (c : ℕ) × (handle_loop net portstr (map some (d ∷ ds)) s ≡ reading t)
        × (t.current_conn ≡ some c)
        × (read_frames (suc (length (map (take buf_size) (d ∷ ds)))) (delivered c t.log)
            ≡ some (map (take buf_size) (d ∷ ds)))
  unfolding handle_loop
  handle_loop-read_frames portstr q d ds s is_target is last =
      let m = take buf_size d in
      let sent_all = map (take buf_size) (d ∷ ds) in
      let (t, e, shows) = forward-opens m portstr s q is_target is last in
      let (u, f, (c, now, bytes)) = handle_loop-appends portstr ds t (m ∷ []) shows in
      (
        u,
        c,
        ap (after_forward (handle_loop net portstr (map some ds))) e ∙ f,
        now,
        ap (read_frames (suc (length sent_all))) bytes ∙ read_frames-frames sent_all,
      )
