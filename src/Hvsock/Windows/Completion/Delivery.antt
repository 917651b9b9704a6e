-- ===== src/Hvsock/Windows/Completion/Delivery.antt =====
-- Every packet reaches the operation that it is for, and the processor never hangs on a channel.
use virtsock.Common.{
  ℕ, ◌≡◌, ◌<◌, refl, ap, ◌∙◌, Bool, true, false, ◌⊎◌, inl, inr, some, List, [], ◌∷◌, arith,
}
use virtsock.Hvsock.Windows.Io.{Answer}
use virtsock.Hvsock.Windows.Completion.{
  Caller, pending, selecting, expired, draining, back, Packet, with_processor, handed_over,
  Operation, Action, send, arrive, cancel, act, State, Reach, prepared,
}
use virtsock.Hvsock.Windows.Completion.Sound.{Fits, AllFit, held, count_held, bit, Reach-Sound}

-- An operation takes the processor's packet, whether the connection is closing or not.
abbrev pub Receives : Operation → Type 0
Receives o =
    (closing : Bool)
    → (a b : Answer) × (act true (send closing) true o.caller o.packet
        ≡ some (false, record { caller = back b; packet = handed_over a }))

-- Its caller, not yet there, makes its next step and then takes it.
abbrev pub IsOwn : Action → Type 0
IsOwn arrive = Unit
IsOwn cancel = Unit
IsOwn _ = ⊥

abbrev pub GetsReady : Operation → Type 0
GetsReady o =
    (a : Action) × (o' : Operation) × IsOwn a
    × (act true a true o.caller o.packet ≡ some (true, o'))
    × Receives o'

abbrev pub SomeReceives : List Operation → Type 0
SomeReceives [] = ⊥
SomeReceives (o ∷ os) = Receives o ⊎ GetsReady o ⊎ SomeReceives os

held-Receives :
    (c : Caller) (p : Packet)
    → Fits c p
    → held p ≡ 1
    → Receives (record { caller = c; packet = p }) ⊎ GetsReady (record { caller = c; packet = p })
unfolding act
held-Receives selecting (with_processor a) fits one = inl (λ closing. (a, _, refl))
held-Receives draining (with_processor a) fits one = inl (λ closing. (a, _, refl))
held-Receives pending (with_processor a) fits one = inr (
  arrive,
  record { caller = selecting; packet = with_processor a },
  tt,
  refl,
  λ closing. (a, _, refl),
)
held-Receives expired (with_processor a) fits one = inr (
  cancel,
  record { caller = draining; packet = with_processor a },
  tt,
  refl,
  λ closing. (a, _, refl),
)
held-Receives c p fits one = absurd (ground arith)

held_cases : (p : Packet) → (held p ≡ 0) ⊎ (held p ≡ 1)
held_cases (with_processor a) = inr refl
held_cases p = inl (ground arith)

count-SomeReceives : (os : List Operation) → AllFit os → 0 < count_held os → SomeReceives os
count-SomeReceives [] all pos = absurd (omega arith)
count-SomeReceives (o ∷ os) (fits, all) pos = elim (held_cases o.packet) [
  | inl none_held ↦ inr (inr (count-SomeReceives os all (omega arith)))
  | inr one ↦ elim (held-Receives o.caller o.packet fits one) [
    | inl now ↦ inl now
    | inr soon ↦ inr (inl soon)
  ]
]

-- With the notification mode that `newHVsockConn` sets, over any number of operations, completions
-- and deadlines in any order: a caller that comes back after waiting has the count of its own packet,
-- and its error, or if that says that the operation was aborted perhaps that the connection was
-- closed or the deadline has passed; one that has not come back has a packet on its way; and whenever
-- the processor is at its send, the operation that the packet is for can receive it, or can after the
-- next step of its own caller, also behind its deadline.
pub Reach-receives :
    (n : ℕ) {t : State}
    → Reach true (record { busy = false; operations = prepared n }) t
    → AllFit t.operations × (t.busy ≡ true → SomeReceives t.operations)
Reach-receives n {t} r =
    let (all, counted) = Reach-Sound n r in
    (all, λ at_send. count-SomeReceives t.operations all (omega (arith, counted ∙ ap bit at_send)))
