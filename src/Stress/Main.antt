-- ===== src/Stress/Main.antt =====
-- `main` of cmd/sock_stress/main.go, up to the calls of a test's `Server` or `Client`, with the
-- flags and their defaults. The numeric flags are taken as not negative. `hostInit`, which comes
-- first, stands in Stress/Platforms.
pub mod Runs
use virtsock.Common.{
  ℕ, ◌*◌, Bool, true, false, Option, List, [], ◌∷◌, Result, ok, err, Text, ltb, leb, if◌then◌else◌,
}
use virtsock.Stress.Socks.{
  Sock, Host, Url, Fatal, parse_sock_str, is_udp, listen, listen_packet, Endpoint,
}
use virtsock.Stress.Clients.{sequential}

pub record Flags : Type 0 where
  pub client_str : Text
  pub server_str : Text
  pub min_data_len : ℕ
  pub max_data_len : ℕ
  pub min_buf_len : ℕ
  pub max_buf_len : ℕ
  pub connections : ℕ
  pub sleep_time : ℕ
  pub parallel : ℕ
  pub exit_on_error : Bool
  pub verbose : ℕ

-- The defaults that `init` declares.
abbrev pub defaults : Flags
defaults = record {
  client_str = [];
  server_str = [];
  min_data_len = 0;
  max_data_len = 64 * 1024;
  min_buf_len = 16 * 1024;
  max_buf_len = 16 * 1024;
  connections = 100;
  sleep_time = 0;
  parallel = 1;
  exit_on_error = false;
  verbose = 0;
}

pub data Test : Type 0 where
  dgram_echo stream_echo : Test

-- What `main` comes to: a server, a complaint about the lengths, a client for each number in turn,
-- or a number of workers at once.
pub data Run : Type 0 where
  serve : Test → Sock → Run
  data_lens_reversed buf_lens_reversed : Run
  clients : Test → Sock → List ℕ → Run
  workers : Test → Sock → ℕ → Run

-- The `switch` over the scheme.
abbrev pub test_of : Text → Test
test_of scheme = if is_udp scheme then dgram_echo else stream_echo

abbrev pub is_empty : Text → Bool
is_empty [] = true
is_empty _ = false

-- What follows `parseSockStr`.
unfoldable pub run_on : Flags → Text → Sock → Run
run_on f scheme s =
    if is_empty f.server_str
    then (if ltb f.max_data_len f.min_data_len
        then data_lens_reversed
        else if ltb f.max_buf_len f.min_buf_len
        then buf_lens_reversed
        else if leb f.parallel 1
        then clients (test_of scheme) s (sequential f.connections)
        else workers (test_of scheme) s f.parallel)
    else serve (test_of scheme) s

abbrev pub run_parsed : Flags → Result Fatal (Text × Sock) → Result Fatal Run
run_parsed f (err e) = err e
run_parsed f (ok (scheme, s)) = ok (run_on f scheme s)

-- `main`.
unfoldable pub main : (Text → Option Url) → Host → Flags → Result Fatal Run
main parse_url h f =
    let s = if is_empty f.server_str then f.client_str else f.server_str in
    run_parsed f (parse_sock_str parse_url h s)

-- Where the `Server` of a test listens; `none` is the fatal error of a method that is not
-- implemented for the socket.
abbrev pub server_endpoint : Bool → Test → Sock → Option Endpoint
server_endpoint use_hvsock dgram_echo s = listen_packet s
server_endpoint use_hvsock stream_echo s = listen use_hvsock s
