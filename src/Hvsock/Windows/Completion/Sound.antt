-- ===== src/Hvsock/Windows/Completion/Sound.antt =====
-- Callers and packets agree, and the processor holds a packet exactly when it is at its send.
use virtsock.Common.{
  count, count-split, ℕ, zero, suc, ◌+◌, ◌≡◌, ◌≤◌, refl, sym, ap, ◌∙◌, subst, Bool, true, false,
  ◌⊎◌, inl, inr, Option, none, some, List, [], ◌∷◌, ◌++◌, arith,
}
use virtsock.Hvsock.Windows.Io.{
  io_pending, operation_aborted, already_closed, timeout, Answer, completed, late, woken,
}
use virtsock.Hvsock.Windows.Completion.{
  Caller, about_to_issue, pending, selecting, expired, draining, back, Packet, no_packet,
  in_progress, in_port, with_processor, handed_over, Operation, Action, issue, complete, dequeue,
  send, arrive, expire, cancel, act, State, Step, step, Reach, here, next, prepared,
}

-- What a caller may return for a packet: its count, and its error, or, of an operation that was
-- aborted, that the connection has been closed or that the deadline has passed.
abbrev pub IsOf : Answer → Answer → Type 0
IsOf a b =
    (b.0 ≡ a.0)
    × ((b.1 ≡ a.1)
        ⊎ ((a.1 ≡ some operation_aborted) × ((b.1 ≡ some already_closed) ⊎ (b.1 ≡ some timeout))))

-- Caller and packet agree: a caller that waits has a packet on its way, and one that is back after
-- waiting has what its own packet said.
abbrev pub IsUnderway : Packet → Type 0
IsUnderway in_progress = Unit
IsUnderway (in_port a) = Unit
IsUnderway (with_processor a) = Unit
IsUnderway _ = ⊥

abbrev pub Fits : Caller → Packet → Type 0
Fits about_to_issue no_packet = Unit
Fits about_to_issue _ = ⊥
Fits (back b) no_packet = Unit
Fits (back b) (handed_over a) = IsOf a b
Fits (back b) _ = ⊥
Fits _ p = IsUnderway p

abbrev pub AllFit : List Operation → Type 0
AllFit [] = Unit
AllFit (o ∷ os) = Fits o.caller o.packet × AllFit os

abbrev pub held : Packet → ℕ
held (with_processor a) = 1
held _ = 0

abbrev pub count_held : List Operation → ℕ
count_held = count (λ o. held o.packet)

abbrev pub bit : Bool → ℕ
bit true = 1
bit false = 0

-- One operation in the place of another.
AllFit-replace :
    (pre post : List Operation) (o o' : Operation)
    → (Fits o.caller o.packet → Fits o'.caller o'.packet)
    → AllFit (pre ++ o ∷ post)
    → AllFit (pre ++ o' ∷ post)
AllFit-replace [] post o o' f (fits, all) = (f fits, all)
AllFit-replace (x ∷ pre) post o o' f (fits, all) = (fits, AllFit-replace pre post o o' f all)

AllFit-at :
    (pre post : List Operation) (o : Operation) → AllFit (pre ++ o ∷ post) → Fits o.caller o.packet
AllFit-at [] post o all = all.0
AllFit-at (x ∷ pre) post o all = AllFit-at pre post o all.1

-- What an action keeps: the operation fits, and the processor is busy exactly with what it held.
abbrev Keeps : Bool → Packet → Bool → Operation → Type 0
Keeps busy p busy' o' = Fits o'.caller o'.packet × (bit busy + held o'.packet ≡ bit busy' + held p)

moved :
    {b busy' : Bool} {t o' : Operation} (P : Bool → Operation → Type 0)
    → ◌≡◌ {A = Option (Bool × Operation)} (some (b, t)) (some (busy', o'))
    → P b t
    → P busy' o'
moved {b} {busy'} {t} {o'} P e v =
    let flag : b ≡ busy' = cc in
    let operation : t ≡ o' = cc in subst (P busy') operation (subst (λ x. P x t) flag v)

select-IsOf : (closing : Bool) (a : Answer) → IsOf a (woken closing (completed a))
select-IsOf false (n, e) = (refl, inl refl)
select-IsOf true (n, some operation_aborted) = (refl, inr (refl, inl refl))
select-IsOf true (n, none) = (refl, inl refl)
select-IsOf true (n, some _) = (refl, inl refl)

late-IsOf : (closing : Bool) (a : Answer) → IsOf a (woken closing (late a))
late-IsOf closing (n, some operation_aborted) = (refl, inr (refl, inr refl))
late-IsOf closing (n, none) = (refl, inl refl)
late-IsOf closing (n, some _) = (refl, inl refl)

act-Keeps :
    (a : Action) (busy busy' : Bool) (c : Caller) (p : Packet) (o' : Operation)
    → act true a busy c p ≡ some (busy', o')
    → Fits c p
    → held p ≤ bit busy
    → Keeps busy p busy' o'
unfolding act
act-Keeps (issue (n, some io_pending)) busy busy' about_to_issue no_packet o' e fits le =
    moved (Keeps busy no_packet) e (tt, refl)
act-Keeps (issue (n, none)) busy busy' about_to_issue no_packet o' e fits le =
    moved (Keeps busy no_packet) e (tt, refl)
act-Keeps (issue (n, some x)) busy busy' about_to_issue no_packet o' e fits le =
    moved (Keeps busy no_packet) e (tt, refl)
act-Keeps (complete a) busy busy' pending in_progress o' e fits le =
    moved (Keeps busy in_progress) e (tt, refl)
act-Keeps (complete a) busy busy' selecting in_progress o' e fits le =
    moved (Keeps busy in_progress) e (tt, refl)
act-Keeps (complete a) busy busy' expired in_progress o' e fits le =
    moved (Keeps busy in_progress) e (tt, refl)
act-Keeps (complete a) busy busy' draining in_progress o' e fits le =
    moved (Keeps busy in_progress) e (tt, refl)
act-Keeps dequeue false busy' pending (in_port a) o' e fits le =
    moved (Keeps false (in_port a)) e (tt, refl)
act-Keeps dequeue false busy' selecting (in_port a) o' e fits le =
    moved (Keeps false (in_port a)) e (tt, refl)
act-Keeps dequeue false busy' expired (in_port a) o' e fits le =
    moved (Keeps false (in_port a)) e (tt, refl)
act-Keeps dequeue false busy' draining (in_port a) o' e fits le =
    moved (Keeps false (in_port a)) e (tt, refl)
act-Keeps (send closing) true busy' selecting (with_processor a) o' e fits le =
    moved (Keeps true (with_processor a)) e (select-IsOf closing a, refl)
act-Keeps (send closing) true busy' draining (with_processor a) o' e fits le =
    moved (Keeps true (with_processor a)) e (late-IsOf closing a, refl)
act-Keeps arrive busy busy' pending p o' e fits le = moved (Keeps busy p) e (fits, refl)
act-Keeps expire busy busy' selecting p o' e fits le = moved (Keeps busy p) e (fits, refl)
act-Keeps cancel busy busy' expired p o' e fits le = moved (Keeps busy p) e (fits, refl)
act-Keeps a busy busy' c p o' e fits le = ground arith

abbrev pub Sound : State → Type 0
Sound s = AllFit s.operations × (count_held s.operations ≡ bit s.busy)

Step-Sound : {s t : State} → Step true s t → Sound s → Sound t
Step-Sound {s} {t} (step pre post o o' a busy' at acts to) (all, counted) =
    let all_split : AllFit (pre ++ o ∷ post) = subst AllFit at all in
    let before : held o.packet + (count_held pre + count_held post) ≡ bit s.busy =
      sym (count-split (λ o. held o.packet) pre post o) ∙ ap count_held (sym at) ∙ counted in
    let (fits, same) =
      act-Keeps a s.busy busy' o.caller o.packet o' acts (AllFit-at pre post o all_split)
        (omega arith) in
    subst Sound (sym to) (
      AllFit-replace pre post o o' (λ _. fits) all_split,
      omega (arith, count-split (λ o. held o.packet) pre post o'),
    )

prepared-Sound : (n : ℕ) → AllFit (prepared n) × (count_held (prepared n) ≡ 0)
prepared-Sound zero = (tt, refl)
prepared-Sound (suc n) = let (all, none_held) = prepared-Sound n in ((tt, all), omega arith)

-- This holds in all that can be reached.
pub Reach-Sound :
    (n : ℕ) {t : State} → Reach true (record { busy = false; operations = prepared n }) t → Sound t
Reach-Sound n here = prepared-Sound n
Reach-Sound n (next r st) = Step-Sound st (Reach-Sound n r)
