-- ===== src/Vsock/Hyperkit.antt =====
-- pkg/vsock/hyperkit_darwin.go: virtio sockets over the Unix sockets of HyperKit. The environment,
-- `filepath.Join` and the calls of `net` and `os` are parameters.
pub mod Names
use virtsock.Common.{
  ℕ, Bool, true, false, ◌&&◌, Option, none, some, List, [], ◌∷◌, ◌++◌, Result, ok, err, ◌==◌,
  if◌then◌else◌, Text, codes, equal, drop,
}
use virtsock.Vsock.{address}

pub data Removal : Type 0 where
  removed absent : Removal
  failed : ℕ → Removal

pub record Host : Type 0 where
  pub join : Text → Text → Text
  pub home : Text
  pub dial_unix : Text → Result ℕ ℕ
  pub write : ℕ → Text → Option ℕ
  pub remove : Text → Removal
  pub listen_unix : Text → Result ℕ ℕ

-- `strings.HasPrefix`.
abbrev pub has_prefix : Text → Text → Bool
has_prefix s [] = true
has_prefix [] (c ∷ prefix) = false
has_prefix (x ∷ s) (c ∷ prefix) = x == c && has_prefix s prefix

-- `socketPath` and `connectPath`.
pub record Paths : Type 0 where
  pub socket : Text
  pub connect : Text

abbrev pub with_connect : Host → Text → Paths
with_connect h socket = record { socket = socket; connect = h.join socket (codes "connect") }

-- `SocketMode`; `none` is the call of `log.Fatalln`.
unfoldable pub socket_mode : Host → Text → Option Paths
socket_mode h mode =
    if has_prefix mode (codes "hyperkit:")
    then some (with_connect h (drop 9 mode))
    else if equal mode (codes "docker")
    then some
        (with_connect h (h.join h.home (codes "/Library/Containers/com.docker.docker/Data/vms/0")))
    else none

pub data Call : Type 0 where
  dials removes listens : Text → Call
  writes : ℕ → Text → Call

pub data Error : Type 0 where
  failed_dial : Text → ℕ → Error
  failed_write : ℕ → ℕ → Text → ℕ → Error
  bare : ℕ → Error

-- The two results of `Dial`: the connection, if there is one behind its pointer, and the error.
pub record Dialled : Type 0 where
  pub conn : Option ℕ
  pub error : Option Error

abbrev pub written : ℕ → ℕ → Text → ℕ → Option ℕ → Dialled
written cid port path c none = record { conn = some c; error = none }
written cid port path c (some e) = record {
  conn = some c;
  error = some (failed_write cid port path e);
}

abbrev pub write_dest : Host → Paths → ℕ → ℕ → Result ℕ ℕ → List Call × Dialled
write_dest h p cid port (err e) =
    (dials p.connect ∷ [], record { conn = none; error = some (failed_dial p.connect e) })
write_dest h p cid port (ok c) =
    let dest = address cid port ++ b'\n' ∷ [] in
    (dials p.connect ∷ writes c dest ∷ [], written cid port p.connect c (h.write c dest))

-- `Dial`, with the calls that it makes.
unfoldable pub dial : Host → Paths → ℕ → ℕ → List Call × Dialled
dial h p cid port = write_dest h p cid port (h.dial_unix p.connect)

abbrev pub after_remove : Host → Text → Removal → List Call × Option (Result ℕ ℕ)
after_remove h sock (failed e) = (removes sock ∷ [], none)
after_remove h sock removed = (removes sock ∷ listens sock ∷ [], some (h.listen_unix sock))
after_remove h sock absent = (removes sock ∷ listens sock ∷ [], some (h.listen_unix sock))

-- `Listen`, with the calls that it makes; a result of `none` is the call of `log.Fatalln`.
unfoldable pub listen : Host → Paths → ℕ → ℕ → List Call × Option (Result ℕ ℕ)
listen h p cid port =
    let sock = h.join p.socket (address cid port) in after_remove h sock (h.remove sock)
