-- ===== src/Vsock/Fallback.antt =====
-- pkg/vsock/fallback.go: virtio sockets where there are none.
use virtsock.Common.{ℕ, Option, none, Result, err, Text, codes}

-- `SocketMode`; `none` is the call of `log.Fatalln`.
unfoldable pub socket_mode : {P : Type 0} → Text → Option P
socket_mode mode = none

-- `Dial` and `Listen`.
unfoldable pub dial : {C : Type 0} → ℕ → ℕ → Result Text C
dial cid port = err (codes "Unimplemented")

unfoldable pub listen : {L : Type 0} → ℕ → ℕ → Result Text L
listen cid port = err (codes "Unimplemented")
