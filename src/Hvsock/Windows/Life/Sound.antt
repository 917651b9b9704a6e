-- ===== src/Hvsock/Windows/Life/Sound.antt =====
-- What holds of every state of a connection. Once `close` waits, whatever the system still works on
-- has been asked to stop, or its own operation is about to ask.
use virtsock.Common.{
  count, count-split, ℕ, zero, suc, ◌+◌, ◌≡◌, ◌≤◌, refl, sym, ap, ◌∙◌, subst, Bool, true, false,
  some, List, [], ◌∷◌, ◌++◌, map, arith,
}
use virtsock.Hvsock.Windows.Life.{
  Pc, idle, ready, issued, cancelling, selecting, expired, draining, finishing, returned, Packet,
  nothing, in_port, with_processor, handed_over, in_flight, Operation, Closer, not_come,
  about_to_cancel, waiting, closed, is_closing, cancel, cancel_operation, Action, prepare, act,
  counted, wg, State, Step, operate, mark, cancel_all, free, Reach, here, next, fresh_operations,
  fresh,
}

-- A packet on its way, of an operation that the system has been asked to cancel if it must have been.
abbrev pub Awaited : Bool → Packet → Type 0
Awaited must (in_flight b) = must ≡ true → b ≡ true
Awaited must in_port = Unit
Awaited must with_processor = Unit
Awaited must _ = ⊥

-- `close` has cancelled what it found.
abbrev pub has_cancelled : Closer → Bool
has_cancelled waiting = true
has_cancelled closed = true
has_cancelled _ = false

abbrev pub Fits : Closer → Pc → Packet → Type 0
Fits c issued p = Awaited false p
Fits c cancelling p = Awaited false p
Fits c selecting p = Awaited (has_cancelled c) p
Fits c expired p = Awaited false p
Fits c draining p = Awaited true p
Fits c idle nothing = Unit
Fits c ready nothing = Unit
Fits c finishing nothing = Unit
Fits c finishing handed_over = Unit
Fits c returned nothing = Unit
Fits c returned handed_over = Unit
Fits _ _ _ = ⊥

abbrev pub AllFit : Closer → List Operation → Type 0
AllFit c [] = Unit
AllFit c (o ∷ os) = Fits c o.pc o.packet × AllFit c os

abbrev pub held : Packet → ℕ
held with_processor = 1
held _ = 0

abbrev pub count_held : List Operation → ℕ
count_held = count (λ o. held o.packet)

abbrev pub bit : Bool → ℕ
bit true = 1
bit false = 0

pub record Sound (s : State) : Type 0 where
  pub fits : AllFit s.closer s.operations
  pub held_counted : count_held s.operations ≡ bit s.busy
  pub closed_last : s.closer ≡ closed → wg s.operations ≡ 0

-- An action keeps one operation in order, and the processor is busy with what it holds. An
-- operation that is not counted stays so if `closing` is set.
pub record Keeps (c : Closer) (busy : Bool) (pc : Pc) (p : Packet) (busy' : Bool) (o' : Operation)
    : Type 0 where
  pub fits : Fits c o'.pc o'.packet
  pub held_counted : bit busy + held o'.packet ≡ bit busy' + held p
  pub counted_down : is_closing c ≡ true → counted o'.pc ≤ counted pc

act-Keeps :
    (a : Action) (c : Closer) (busy busy' : Bool) (pc : Pc) (p : Packet) (o' : Operation)
    → act a (is_closing c) busy pc p ≡ some (busy', o')
    → Fits c pc p
    → held p ≤ bit busy
    → Keeps c busy pc p busy' o'
unfolding act
act-Keeps prepare c busy busy' idle nothing o' e fits le = ground arith
act-Keeps _ c busy busy' pc p o' e fits le = ground arith

AllFit-replace :
    (c : Closer) (pre post : List Operation) (o o' : Operation)
    → Fits c o'.pc o'.packet
    → AllFit c (pre ++ o ∷ post)
    → AllFit c (pre ++ o' ∷ post)
AllFit-replace c [] post o o' f (fits, all) = (f, all)
AllFit-replace c (x ∷ pre) post o o' f (fits, all) = (fits, AllFit-replace c pre post o o' f all)

pub AllFit-at :
    (c : Closer) (pre post : List Operation) (o : Operation)
    → AllFit c (pre ++ o ∷ post)
    → Fits c o.pc o.packet
AllFit-at c [] post o all = all.0
AllFit-at c (x ∷ pre) post o all = AllFit-at c pre post o all.1

pub wg-split :
    (pre post : List Operation) (o : Operation)
    → wg (pre ++ o ∷ post) ≡ counted o.pc + (wg pre + wg post)
wg-split [] post o = omega arith
wg-split (x ∷ pre) post o = omega (arith, wg-split pre post o)

-- `closing` alone changes nothing for an operation in progress, nor does the end of `close`.
Fits-change :
    (c d : Closer) (pc : Pc) (p : Packet)
    → has_cancelled c ≡ has_cancelled d
    → Fits c pc p
    → Fits d pc p
Fits-change c d selecting p e fits = subst (λ b. Awaited b p) e fits
Fits-change c d _ p e fits = ground arith

AllFit-change :
    (c d : Closer) (os : List Operation)
    → has_cancelled c ≡ has_cancelled d
    → AllFit c os
    → AllFit d os
AllFit-change c d [] e all = tt
AllFit-change c d (o ∷ os) e (fits, all) =
    (Fits-change c d o.pc o.packet e fits, AllFit-change c d os e all)

Fits-cancel : (c d : Closer) (pc : Pc) (p : Packet) → Fits c pc p → Fits d pc (cancel p)
Fits-cancel c d pc p fits = ground arith

cancelled-Sound :
    (c d : Closer) (os : List Operation)
    → AllFit c os
    → AllFit d (map cancel_operation os) × (count_held (map cancel_operation os) ≡ count_held os)
cancelled-Sound c d [] all = (tt, refl)
cancelled-Sound c d (o ∷ os) (fits, all) =
    let (rest, same) = cancelled-Sound c d os all in
    ((Fits-cancel c d o.pc o.packet fits, rest), omega (arith, held-cancel o.packet))
  where
    held-cancel : (p : Packet) → held (cancel p) ≡ held p
    held-cancel (in_flight b) = refl
    held-cancel _ = refl

pub Step-Sound : {s t : State} {b : Bool} → Step s t b → Sound s → Sound t
Step-Sound {s} (operate pre post o o' a busy' at acts to) v =
    let all : AllFit s.closer (pre ++ o ∷ post) = subst (AllFit s.closer) at v.fits in
    let held_split = ap count_held (sym at) ∙ v.held_counted in
    let wg_split = λ (e : s.closer ≡ closed). ap wg (sym at) ∙ v.closed_last e in
    let keeps =
      act-Keeps a s.closer s.busy busy' o.pc o.packet o' acts (AllFit-at s.closer pre post o all)
        (omega (arith, count-split (λ o. held o.packet) pre post o, held_split)) in
    subst Sound (sym to) (record {
      fits = AllFit-replace s.closer pre post o o' keeps.fits all;
      held_counted = omega (
        arith,
        count-split (λ o. held o.packet) pre post o,
        count-split (λ o. held o.packet) pre post o',
        held_split,
        keeps.held_counted,
      );
      closed_last = λ e. omega (
        arith,
        wg-split pre post o,
        wg-split pre post o',
        wg_split e,
        keeps.counted_down (ap is_closing e),
      );
    })
Step-Sound {s} (mark at to) v = subst Sound (sym to) (record {
  fits = AllFit-change s.closer about_to_cancel s.operations (ap has_cancelled at) v.fits;
  held_counted = v.held_counted;
  closed_last = λ e. cc;
})
Step-Sound {s} (cancel_all at to) v =
    let (all, same) = cancelled-Sound s.closer waiting s.operations v.fits in
    subst Sound (sym to)
      (record { fits = all; held_counted = same ∙ v.held_counted; closed_last = λ e. cc })
Step-Sound {s} (free at over to) v = subst Sound (sym to) (record {
  fits = AllFit-change s.closer closed s.operations (ap has_cancelled at) v.fits;
  held_counted = v.held_counted;
  closed_last = λ e. over;
})

fresh-Sound : (n : ℕ) → Sound (fresh n)
fresh-Sound n = record { fits = fit n; held_counted = none_held n; closed_last = λ e. cc }
  where
    fit : (n : ℕ) → AllFit not_come (fresh_operations n)
    fit zero = tt
    fit (suc n) = (tt, fit n)

    none_held : (n : ℕ) → count_held (fresh_operations n) ≡ 0
    none_held zero = refl
    none_held (suc n) = omega (arith, none_held n)

pub Reach-Sound : (n : ℕ) {t : State} → Reach (fresh n) t → Sound t
Reach-Sound n here = fresh-Sound n
Reach-Sound n (next r st) = Step-Sound st (Reach-Sound n r)
