-- ===== src/Tests/Transfers.antt =====
-- Whole runs of sock_stress, at concrete inputs.
use mathlib.Core.List.{Sublistᴰ}
use virtsock.Common.{
  ℕ, zero, suc, ◌≡◌, ◌<◌, refl, true, false, none, some, Option, ok, List, [], ◌∷◌, arith, not,
  ◌++◌, err, equal, Bytes, Text, length, codes,
}
use virtsock.Stress.Echo.{Config, Intn, whole, timed_out, data_len}
use virtsock.Stress.Echo.Client.{Course, client, ended}
use virtsock.Stress.Echo.Client.Checksums.{IsSmooth, client-compares}
use virtsock.Stress.Echo.Server.{Copy, handle_request}
use virtsock.Stress.Echo.Server.Session.{IsWhole, client-handle_request}
use virtsock.Stress.Dgram
use virtsock.Stress.Dgram.{Arrival, serve}
use virtsock.Stress.Dgram.Totals.{IsEchoed, Reports, client-Reports}
use virtsock.Stress.Socks.{Url, unix, sock_of, parse_sock_str}
use virtsock.Stress.Clients.{sequential}
use virtsock.Stress.Main.{Flags, defaults, Run, clients, stream_echo, main, run_on}
use virtsock.Stress.Platforms
use virtsock.Stress.Platforms.Served.{Comes, start-Comes}
use virtsock.Vsock.Hyperkit as Hyperkit
use virtsock.Stress.Socks.{Resolver}

abbrev tiny : Config
tiny = record {
  min_data_len = 0;
  max_data_len = 6;
  min_buf_len = 2;
  max_buf_len = 4;
  exit_on_error = false;
}

-- The greatest number in range.
abbrev greatest : Intn
greatest i zero = 0
greatest i (suc n) = n

greatest-lt : (i n : ℕ) → 0 < n → greatest i n < n
greatest-lt i zero h = h
greatest-lt i (suc n) h = omega arith

abbrev calm : Course
calm = record {
  dials = true;
  tx_sizes = greatest;
  rx_sizes = greatest;
  draws = λ i j. j;
  tx_answers = λ i. whole;
  rx_answers = λ i. whole;
  tx_partial = λ i. 0;
  rx_partial = λ i. 0;
}

calm-IsSmooth : IsSmooth calm
calm-IsSmooth = record { dials = refl; writes = λ i. refl; reads = λ i. refl }

-- A stand-in for md5, and a peer that echoes.
abbrev same : Bytes → Bytes
same bs = bs

client-compares_example :
    (bs : Bytes) × (length bs ≡ data_len tiny greatest)
    × (client tiny calm same same
        ≡ some (ended (length bs) (length bs) (not (equal (same bs) (same (same bs))))))
client-compares_example =
    client-compares tiny calm same same calm-IsSmooth (omega arith) (omega arith) greatest-lt
      greatest-lt (λ bs. refl)

-- A network that loses all.
abbrev loses_all : List ℕ → List Arrival
loses_all sizes = []

no_part : (sizes : List ℕ) → Sublistᴰ [] sizes
no_part [] = Sublistᴰ.slnil
no_part (n ∷ sizes) = Sublistᴰ.cons (no_part sizes)

loses_all-IsEchoed : (sizes : List ℕ) → IsEchoed sizes (loses_all sizes)
unfolding serve
loses_all-IsEchoed sizes = record { seen = []; sent = no_part sizes; back = Sublistᴰ.slnil }

client-Reports_example :
    Reports true tiny
      (data_len tiny greatest)
      (Dgram.client true tiny greatest greatest (λ i. timed_out) loses_all)
client-Reports_example =
    client-Reports true tiny greatest greatest (λ i. timed_out) loses_all greatest-lt
      loses_all-IsEchoed

abbrev url_of : Text → Option Url
url_of s = some (record { scheme = codes "unix"; host = []; path = codes "/tmp/sock" })

abbrev as_client : Flags
as_client = record defaults { client_str = codes "unix:///tmp/sock" }

abbrev run_found : Run
run_found = clients stream_echo (unix (codes "/tmp/sock")) (sequential 100)

abbrev no_files : Hyperkit.Host
no_files = record {
  join = λ a b. a ++ b;
  home = codes "/Users/me";
  dial_unix = λ path. err 2;
  write = λ c s. none;
  remove = λ path. Hyperkit.absent;
  listen_unix = λ path. err 2;
}

abbrev no_resolver : Resolver
no_resolver net s = none

start-Comes_example :
    Comes Platforms.darwin false no_files Platforms.default_mode url_of no_resolver no_resolver
      as_client
      (Platforms.start Platforms.darwin false no_files Platforms.default_mode url_of no_resolver
        no_resolver as_client)
start-Comes_example =
    start-Comes Platforms.darwin false no_files Platforms.default_mode url_of no_resolver
      no_resolver as_client

starts :
    Platforms.start Platforms.darwin false no_files Platforms.default_mode url_of no_resolver
      no_resolver as_client
    ≡ some (ok run_found)
unfolding Platforms.start Platforms.host_init Hyperkit.socket_mode main parse_sock_str sock_of
    run_on
starts = refl

abbrev whole_copy : Copy
whole_copy bs = (length bs, false)

whole_copy-IsWhole : IsWhole whole_copy
whole_copy-IsWhole = record { copies = λ bs. refl }

client-handle_request_example :
    (bs : Bytes) × (length bs ≡ data_len tiny greatest)
    × (client tiny calm same (λ sent. (handle_request tiny whole_copy false sent).echoed)
        ≡ some (ended (length bs) (length bs) false))
    × ((handle_request tiny whole_copy false bs).report ≡ some (length bs))
client-handle_request_example =
    client-handle_request tiny calm same whole_copy false calm-IsSmooth whole_copy-IsWhole
      (omega arith) (omega arith) greatest-lt greatest-lt
