-- ===== src/Hvsock/Windows/Close/Invariant.antt =====
-- What holds of every reachable state: the handle outlives the operations, and is closed once.
use virtsock.Common.{
  count, count-split, ℕ, zero, suc, ◌+◌, ◌≤◌, ◌<◌, ◌≡◌, refl, sym, subst, Bool, true, false, some,
  List, [], ◌∷◌, ◌++◌, arith,
}
use virtsock.Hvsock.Windows.Close.{
  Pc, io_start, io_locked, io_refuse, io_add, io_added, io_ready, io_pending, io_complete,
  close_start, close_locked, close_lost, close_won, close_cancel, close_wait, close_free, Shared,
  act, State, Step, step, Reach, here, next, fresh, AreStarting,
}

-- Which threads hold the read lock, hold the write lock, are counted by the wait group, have won
-- the right to close, are about to close, and are about to be counted.
abbrev pub reading : Pc → ℕ
reading io_locked = 1
reading io_refuse = 1
reading io_add = 1
reading io_added = 1
reading _ = 0

abbrev pub writing : Pc → ℕ
writing close_locked = 1
writing close_lost = 1
writing close_won = 1
writing _ = 0

abbrev pub active : Pc → ℕ
active io_added = 1
active io_ready = 1
active io_pending = 1
active io_complete = 1
active _ = 0

abbrev pub winning : Pc → ℕ
winning close_won = 1
winning close_cancel = 1
winning close_wait = 1
winning close_free = 1
winning _ = 0

abbrev pub freeing : Pc → ℕ
freeing close_free = 1
freeing _ = 0

abbrev pub adding : Pc → ℕ
adding io_add = 1
adding _ = 0

abbrev pub bit : Bool → ℕ
bit true = 1
bit false = 0

-- The invariant, over how many threads are in each group.
pub record Inv (s : Shared) (r w a n f d : ℕ) : Type 0 where
  pub readers_counted : s.readers ≡ r
  pub writer_counted : bit s.writer ≡ w
  pub wg_counted : s.wg ≡ a
  pub winners_counted : n + s.closes ≡ bit s.closing
  pub excludes : 0 < w → r ≡ 0
  pub adds_within : d ≤ r
  pub adds_before_closing : 0 < d → s.closing ≡ false
  pub frees_within : f ≤ n
  pub idle : 0 < f + s.closes → a ≡ 0

act-Inv :
    (late : Bool) (s s' : Shared) (pc pc' : Pc) (r w a n f d : ℕ)
    → act late s pc ≡ some (s', pc')
    → d ≤ r
    → f ≤ n
    → Inv s
        (reading pc + r)
        (writing pc + w)
        (active pc + a)
        (winning pc + n)
        (freeing pc + f)
        (adding pc + d)
    → Inv s'
        (reading pc' + r)
        (writing pc' + w)
        (active pc' + a)
        (winning pc' + n)
        (freeing pc' + f)
        (adding pc' + d)
unfolding act
act-Inv late s s' io_start pc' r w a n f d e dr fn v = ground arith
act-Inv late s s' _ pc' r w a n f d e dr fn v = ground arith

abbrev pub Holds : Shared → List Pc → Type 0
Holds s ts =
    Inv s (count reading ts) (count writing ts) (count active ts) (count winning ts)
      (count freeing ts) (count adding ts)

pub count_mono :
    (f g : Pc → ℕ) → ((pc : Pc) → f pc ≤ g pc) → (ts : List Pc) → count f ts ≤ count g ts
count_mono f g h [] = omega arith
count_mono f g h (pc ∷ ts) = omega (arith, h pc, count_mono f g h ts)

adding-le : (pc : Pc) → adding pc ≤ reading pc
adding-le io_add = omega arith
adding-le _ = omega arith

pub freeing-le : (pc : Pc) → freeing pc ≤ winning pc
freeing-le close_free = omega arith
freeing-le _ = omega arith

-- The counts of a list around one thread.
abbrev pub Around : Shared → List Pc → Pc → List Pc → Type 0
Around s pre pc post =
    Inv s (reading pc + (count reading pre + count reading post))
      (writing pc + (count writing pre + count writing post))
      (active pc + (count active pre + count active post))
      (winning pc + (count winning pre + count winning post))
      (freeing pc + (count freeing pre + count freeing post))
      (adding pc + (count adding pre + count adding post))

pub Around-Holds :
    (s : Shared) (pre post : List Pc) (pc : Pc) → Holds s (pre ++ pc ∷ post) ≡ Around s pre pc post
Around-Holds s pre post pc = rw (
  count-split reading pre post pc,
  count-split writing pre post pc,
  count-split active pre post pc,
  count-split winning pre post pc,
  count-split freeing pre post pc,
  count-split adding pre post pc,
)

Step-Holds : {s t : State} → Step s t → Holds s.shared s.threads → Holds t.shared t.threads
Step-Holds {s} {t} (step pre post pc pc' late shared' at acts to) v =
    let before : Around s.shared pre pc post =
      subst (λ X. X) (Around-Holds s.shared pre post pc) (subst (Holds s.shared) at v) in
    let dr = count_mono adding reading adding-le in
    let fn = count_mono freeing winning freeing-le in
    let after : Around shared' pre pc' post =
      act-Inv late s.shared shared' pc pc' _ _ _ _ _ _ acts (omega (arith, dr pre, dr post))
        (omega (arith, fn pre, fn post)) before in
    subst (λ u. Holds u.shared u.threads) (sym to)
      (subst (λ X. X) (sym (Around-Holds shared' pre post pc')) after)

starting-count :
    (f : Pc → ℕ)
    → f io_start ≡ 0
    → f close_start ≡ 0
    → (ts : List Pc) → AreStarting ts
    → count f ts ≡ 0
starting-count f i c [] h = refl
starting-count f i c (io_start ∷ ts) h = omega (arith, starting-count f i c ts h)
starting-count f i c (close_start ∷ ts) h = omega (arith, starting-count f i c ts h)
starting-count f i c (_ ∷ ts) h = elim h [ ]

pub fresh-Holds : (ts : List Pc) → AreStarting ts → Holds fresh ts
fresh-Holds ts h =
    let zero_of =
      λ (f : Pc → ℕ) (i : f io_start ≡ 0) (c : f close_start ≡ 0). starting-count f i c ts h in
    rw
      (
        zero_of reading refl refl,
        zero_of writing refl refl,
        zero_of active refl refl,
        zero_of winning refl refl,
        zero_of freeing refl refl,
        zero_of adding refl refl,
      )
      (ground arith)

pub Reach-Holds : {s t : State} → Reach s t → Holds s.shared s.threads → Holds t.shared t.threads
Reach-Holds here v = v
Reach-Holds (next r st) v = Step-Holds st (Reach-Holds r v)

not_yet : (f c a : ℕ) → (0 < f + c → a ≡ 0) → 0 < a → c ≡ 0
not_yet f zero a h p = refl
not_yet f (suc c) a h p = absurd (omega (arith, h (omega arith)))

-- In every interleaving of reads, writes and closes of a connection, the handle is closed at most
-- once, and while an operation is counted (from the end of `prepareIo` to `wg.Done`, so also while
-- it is being issued or is pending) it has not been closed; the wait group counts those operations.
pub Reach-safe :
    (ts : List Pc) {t : State}
    → AreStarting ts
    → Reach (record { shared = fresh; threads = ts }) t
    → (t.shared.closes ≤ 1)
      × (0 < count active t.threads → t.shared.closes ≡ 0)
      × (t.shared.wg ≡ count active t.threads)
Reach-safe ts {t} h r =
    let v : Holds t.shared t.threads = Reach-Holds r (fresh-Holds ts h) in
    (omega (arith, bit-le t.shared.closing), (λ p. not_yet _ _ _ v.idle p), omega arith)
  where
    bit-le : (b : Bool) → bit b ≤ 1
    bit-le true = omega arith
    bit-le false = omega arith
