-- ===== src/Stress/Main/Runs.antt =====
-- What `main` guarantees of the run that it starts.
use virtsock.Common.{
  ◌≤◌, ◌<◌, ◌≡◌, refl, sym, ap, ◌∙◌, subst, Bool, Option, none, some, Result, ok, err, Text, ltb,
  leb, if◌then◌else◌, arith, Bool-cases, inl, inr,
}
use virtsock.Stress.Socks.{
  Sock, vsock, hvsock, tcp, udp, unix, Host, Url, Fatal, parse_sock_str, parse_parsed, with_scheme,
  or_whole, sock_of, is_udp, listen, listen_packet, dial,
}
use virtsock.Stress.Socks.Schemes.{is_datagram, sock_of-is_datagram}
use virtsock.Stress.Clients.{sequential}
use virtsock.Stress.Main.{
  Flags, Test, Run, serve, data_lens_reversed, buf_lens_reversed, clients, workers, test_of, run_on,
  run_parsed, main, server_endpoint, is_empty,
}

-- The test and the socket fit: the server listens where a client dials.
abbrev pub Fits : Bool → Test → Sock → Type 0
Fits use_hvsock t s = server_endpoint use_hvsock t s ≡ some (dial use_hvsock s)

abbrev pub AreOrdered : Flags → Type 0
AreOrdered f = (f.min_data_len ≤ f.max_data_len) × (f.min_buf_len ≤ f.max_buf_len)

abbrev pub Admits : Bool → Flags → Run → Type 0
Admits use_hvsock f (serve t s) = Fits use_hvsock t s
Admits use_hvsock f data_lens_reversed = f.max_data_len < f.min_data_len
Admits use_hvsock f buf_lens_reversed = f.max_buf_len < f.min_buf_len
Admits use_hvsock f (clients t s ids) =
    Fits use_hvsock t s × AreOrdered f × (f.parallel ≤ 1) × (ids ≡ sequential f.connections)
Admits use_hvsock f (workers t s n) =
    Fits use_hvsock t s × AreOrdered f × (1 < n) × (n ≡ f.parallel)

fits :
    (use_hvsock : Bool) (scheme : Text) (s : Sock)
    → is_datagram s ≡ is_udp scheme
    → Fits use_hvsock (test_of scheme) s
unfolding listen listen_packet dial
fits use_hvsock scheme (vsock a) e = rw (← e) refl
fits use_hvsock scheme (hvsock a) e = rw (← e) refl
fits use_hvsock scheme (tcp a) e = rw (← e) refl
fits use_hvsock scheme (udp a) e = rw (← e) refl
fits use_hvsock scheme (unix path) e = rw (← e) refl

parse_sock_str-is_datagram :
    (parse_url : Text → Option Url) (h : Host) (t scheme : Text) (s : Sock)
    → parse_sock_str parse_url h t ≡ ok (scheme, s)
    → is_datagram s ≡ is_udp scheme
unfolding parse_sock_str
parse_sock_str-is_datagram parse_url h t scheme s e = by_url (parse_url t) e
  where
    by_sock :
        (v : Url) (r : Result Fatal Sock)
        → sock_of h v ≡ r
        → with_scheme v.scheme r ≡ ok (scheme, s)
        → is_datagram s ≡ is_udp scheme
    by_sock v (ok k) q d =
        let same : k ≡ s = cc in
        let its : v.scheme ≡ scheme = cc in
        ap is_datagram (sym same) ∙ sock_of-is_datagram h v q ∙ ap is_udp its
    by_sock v (err x) q d = cc

    by_url : (u : Option Url) → parse_parsed h t u ≡ ok (scheme, s) → is_datagram s ≡ is_udp scheme
    by_url none d = cc
    by_url (some u) d = by_sock (or_whole t u) (sock_of h (or_whole t u)) refl d

run_on-Admits :
    (use_hvsock : Bool) (f : Flags) (scheme : Text) (s : Sock)
    → is_datagram s ≡ is_udp scheme
    → Admits use_hvsock f (run_on f scheme s)
unfolding run_on
run_on-Admits use_hvsock f scheme s e =
    let fit = fits use_hvsock scheme s e in
    elim (Bool-cases (is_empty f.server_str)) [
      | inr serves ↦ rw serves fit
      | inl no_server ↦ rw no_server (elim (Bool-cases (ltb f.max_data_len f.min_data_len)) [
        | inl bad ↦ rw bad (ground arith)
        | inr data_ok ↦ rw data_ok (elim (Bool-cases (ltb f.max_buf_len f.min_buf_len)) [
          | inl bad ↦ rw bad (ground arith)
          | inr buf_ok ↦ rw buf_ok (elim (Bool-cases (leb f.parallel 1)) [
            | inl one ↦ rw one (fit, (ground arith, ground arith), ground arith, refl)
            | inr more ↦ rw more (fit, (ground arith, ground arith), ground arith, refl)
          ])
        ])
      ])
    ]

-- Whenever `main` gets as far as a run, whatever `url.Parse` and the resolvers answer: a server, and
-- a client in either mode, uses a test that fits its socket, so that no method is called that is not
-- implemented for it and server and client name the same end point; clients run only with ordered
-- lengths, one after the other with the numbers from 0 on unless more than one worker is asked for,
-- and then with that many workers; and a complaint about lengths is made only if they are reversed.
pub main-Admits :
    (parse_url : Text → Option Url) (h : Host) (f : Flags) (r : Run)
    → main parse_url h f ≡ ok r
    → Admits h.use_hvsock f r
unfolding main
main-Admits parse_url h f r e =
    by_parse
      (parse_sock_str parse_url h (if is_empty f.server_str then f.client_str else f.server_str))
      refl e
  where
    by_parse :
        (p : Result Fatal (Text × Sock))
        → parse_sock_str parse_url h (if is_empty f.server_str then f.client_str else f.server_str)
          ≡ p
        → run_parsed f p ≡ ok r
        → Admits h.use_hvsock f r
    by_parse (err x) q d = cc
    by_parse (ok (scheme, s)) q d =
        let same : run_on f scheme s ≡ r = cc in
        subst (Admits h.use_hvsock f) same (
          run_on-Admits h.use_hvsock f scheme s
            (parse_sock_str-is_datagram parse_url h _ scheme s q))
