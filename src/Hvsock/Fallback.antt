-- ===== src/Hvsock/Fallback.antt =====
-- pkg/hvsock/hvsock_fallback.go: Hyper-V sockets where there are none. The text is `runtime.GOOS`.
use virtsock.Common.{Bool, false, ◌++◌, Result, err, Text, codes}
use virtsock.Hvsock.Addr.{Addr}

-- `Supported`.
abbrev pub supported : Bool
supported = false

-- `Dial` and `Listen`.
unfoldable pub dial : {C : Type 0} → Text → Addr → Result Text C
dial goos raddr = err (codes "Dial() not implemented on " ++ goos)

unfoldable pub listen : {L : Type 0} → Text → Addr → Result Text L
listen goos addr = err (codes "Listen() not implemented on " ++ goos)
