-- ===== src/Stress/VsockAddr.antt =====
-- cmd/sock_stress/vsock.go: addresses of virtio sockets on the command line.
pub mod Parse
use virtsock.Common.{
  ℕ, Bool, true, false, ◌+◌, Result, ok, err, ◌>>=◌, ◌>>◌, List, [], ◌∷◌, ◌++◌, if◌then◌else◌, Text,
  contains,
}
use virtsock.Strings.{AddrError, split_host_port, NumError, parse_uint}
use virtsock.Vsock.{Addr, cid_any, cid_host}

abbrev pub vsock_port : ℕ
vsock_port = 0x5653

-- The message of a `log.Fatalf`, after which the program has exited.
pub data Fatal : Type 0 where
  bad_address : Text → AddrError → Fatal
  bad_number : Text → NumError → Fatal

abbrev pub or_fatal {ℓ} : {E : Type 0} {A : Type ℓ} → Result E A → (E → Fatal) → Result Fatal A
or_fatal (ok a) die = ok a
or_fatal (err e) die = err (die e)

-- `a.CID` before the text is read, by `runtime.GOOS == "darwin"`.
abbrev pub default_addr : Bool → Addr
default_addr darwin = record { cid = if darwin then cid_host else cid_any; port = vsock_port }

abbrev pub cut : Text → Result Fatal (Text × Text)
cut s = if contains s b':' then or_fatal (split_host_port s) (λ e. bad_address s e) else ok (s, [])

-- `if text != "" { … ParseUint … }`.
abbrev pub number_or : ℕ → Text → Result Fatal ℕ
number_or default [] = ok default
number_or default (c ∷ s) = or_fatal (parse_uint (c ∷ s)) (λ e. bad_number (c ∷ s) e)

-- `vsockParseSockStr` on a text that is not empty.
abbrev pub parse_nonempty : Bool → Text → Result Fatal Addr
parse_nonempty darwin s = do
  parts ← cut s
  cid ← number_or (default_addr darwin).cid parts.0
  port ← number_or (default_addr darwin).port parts.1
  ok (record { cid = cid; port = port })

-- `vsockParseSockStr`.
unfoldable pub parse : Bool → Text → Result Fatal Addr
parse darwin [] = ok (default_addr darwin)
parse darwin (c ∷ s) = parse_nonempty darwin (c ∷ s)
