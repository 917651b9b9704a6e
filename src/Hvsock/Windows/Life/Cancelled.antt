-- ===== src/Hvsock/Windows/Life/Cancelled.antt =====
-- What `close` leaves with the system.
use virtsock.Common.{ℕ, ◌≡◌, refl, ap, true, List, [], ◌∷◌, arith, All}
use virtsock.Hvsock.Windows.Life.{
  Pc, idle, selecting, draining, returned, Packet, nothing, handed_over, in_flight, Operation,
  Closer, not_come, about_to_cancel, waiting, closed, counted, wg, State, Reach, fresh,
}
use virtsock.Hvsock.Windows.Life.Sound.{has_cancelled, Fits, AllFit, Reach-Sound}

-- What waits for the system alone has been cancelled.
abbrev pub IsAsked : Pc → Packet → Type 0
IsAsked selecting (in_flight b) = b ≡ true
IsAsked draining (in_flight b) = b ≡ true
IsAsked _ _ = Unit

-- Nothing of the operation is with the system, the port or the processor, or will be.
abbrev pub IsOver : Pc → Packet → Type 0
IsOver idle nothing = Unit
IsOver returned nothing = Unit
IsOver returned handed_over = Unit
IsOver _ _ = ⊥

Fits-IsAsked :
    (c : Closer) (pc : Pc) (p : Packet) → has_cancelled c ≡ true → Fits c pc p → IsAsked pc p
Fits-IsAsked c selecting (in_flight b) is fits = fits is
Fits-IsAsked c draining (in_flight b) is fits = fits refl
Fits-IsAsked c _ p is fits = ground arith

Fits-IsOver : (c : Closer) (pc : Pc) (p : Packet) → counted pc ≡ 0 → Fits c pc p → IsOver pc p
Fits-IsOver c idle nothing idle_all fits = tt
Fits-IsOver c _ p idle_all fits = ground arith

asked :
    (c : Closer) (os : List Operation)
    → has_cancelled c ≡ true
    → AllFit c os
    → All (λ o. IsAsked o.pc o.packet) os
asked c [] is all = tt
asked c (o ∷ os) is (fits, all) = (Fits-IsAsked c o.pc o.packet is fits, asked c os is all)

over :
    (c : Closer) (os : List Operation)
    → wg os ≡ 0
    → AllFit c os
    → All (λ o. IsOver o.pc o.packet) os
over c [] idle_all all = tt
over c (o ∷ os) idle_all (fits, all) =
    (Fits-IsOver c o.pc o.packet (omega arith) fits, over c os (omega arith) all)

-- What is known of the operations, by how far `close` has come.
abbrev pub AfterClose : Closer → List Operation → Type 0
AfterClose waiting os = All (λ o. IsAsked o.pc o.packet) os
AfterClose closed os = All (λ o. IsOver o.pc o.packet) os
AfterClose _ os = Unit

-- Over any number of operations, with or without deadlines, in any order of their steps: once
-- `close` waits, every operation that waits for a packet that the system still has, at its `select`
-- or behind it, has been cancelled, by `close` or by itself; and when the handle has been closed, no
-- operation is under way, and neither the system nor the port nor the processor has a packet of one.
pub Reach-cancels : (n : ℕ) {s : State} → Reach (fresh n) s → AfterClose s.closer s.operations
Reach-cancels n {s} r = by_closer s.closer refl
  where
    by_closer : (c : Closer) → s.closer ≡ c → AfterClose c s.operations
    by_closer not_come at = tt
    by_closer about_to_cancel at = tt
    by_closer waiting at =
        let v = Reach-Sound n r in asked s.closer s.operations (ap has_cancelled at) v.fits
    by_closer closed at =
        let v = Reach-Sound n r in over s.closer s.operations (v.closed_last at) v.fits
