-- ===== src/Vsudd/Network.antt =====
-- The connections that vsudd makes, as a parameter: `hvsock.Supported`, the `Dial` functions of the
-- two packages, and the methods of the interface `vConn`. A `Network` answers by any function of the
-- log of what has been done, the latest first; a connection is named by a number.
use virtsock.Common.{
  ℕ, Bool, true, false, Option, none, some, List, [], ◌∷◌, ◌++◌, Bytes, take, length, ◌==◌,
  if◌then◌else◌,
}
use virtsock.Hvsock.Guid.{Guid}

pub data Target : Type 0 where
  hvsock : Guid → Guid → Target
  vsock : ℕ → ℕ → Target

pub data Event : Type 0 where
  dialled : Target → Option ℕ → Event
  wrote : ℕ → Bytes → ℕ → Bool → Event
  closed_read closed_write closed : ℕ → Event

abbrev pub Log : Type 0
Log = List Event

-- `on_write` gives the count and whether there is an error.
pub record Network : Type 0 where
  pub supported : Bool
  pub on_dial : Log → Target → Option ℕ
  pub on_write : Log → ℕ → Bytes → ℕ × Bool

-- `io.Copy` from a reader over a buffer: one `Write` of all of it unless it is empty, and an error
-- when that fails or is short. The result says whether there is an error.
unfoldable pub copy_bytes : Network → ℕ → Bytes → Log → Bool × Log
copy_bytes net c [] log = (false, log)
copy_bytes net c (b ∷ bs) log =
    let (n, failed) = net.on_write log c (b ∷ bs) in
    (
      (if failed then true else if n == length (b ∷ bs) then false else true),
      wrote c (b ∷ bs) n failed ∷ log,
    )

-- The connections that are dialled and not closed.
abbrev pub remove : ℕ → List ℕ → List ℕ
remove c [] = []
remove c (x ∷ xs) = if x == c then xs else x ∷ remove c xs

unfoldable pub open_conns : Log → List ℕ
open_conns [] = []
open_conns (dialled _ (some c) ∷ log) = c ∷ open_conns log
open_conns (closed c ∷ log) = remove c (open_conns log)
open_conns (_ ∷ log) = open_conns log

-- The bytes that the peer of a connection has been sent since it was dialled, in order.
unfoldable pub delivered : ℕ → Log → Bytes
delivered c [] = []
delivered c (dialled t none ∷ log) = delivered c log
delivered c (dialled t (some d) ∷ log) = let rest = delivered c log in if d == c then [] else rest
delivered c (wrote d bs n failed ∷ log) =
    let rest = delivered c log in if d == c then rest ++ take n bs else rest
delivered c (_ ∷ log) = delivered c log
