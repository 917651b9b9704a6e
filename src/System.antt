-- ===== src/System.antt =====
-- The socket calls of the operating system, as a parameter; `associate` and `set_modes` are those
-- that tie a handle to an I/O completion port on Windows. A `Kernel` answers each call by any
-- function of the calls made so far and of the arguments; a run is a state monad over the history
-- of calls, the latest first, each with its answer.
pub mod Descriptors
pub mod OsFile
pub mod Listening
pub mod Methods
use virtsock.Common.{ap, ℕ, ◌+◌, ◌≡◌, Option, none, some, List, [], ◌∷◌, Result, ok, err, Text}

abbrev pub Errno : Type 0
Errno = ℕ

abbrev pub eintr : Errno
eintr = 4

-- `unix.SockaddrVM`, `struct sockaddr_hv`, or an address of another family.
pub data SockAddr : Type 0 where
  vm : ℕ → ℕ → SockAddr
  hv : ℕ → ℕ → List ℕ → List ℕ → SockAddr
  other_family : SockAddr

pub data How : Type 0 where
  shut_rd shut_wr : How

pub data Event : Type 0 where
  socket : ℕ → ℕ → ℕ → Result Errno ℕ → Event
  connect : ℕ → SockAddr → Option Errno → Event
  bind : ℕ → SockAddr → Option Errno → Event
  listen : ℕ → ℕ → Option Errno → Event
  accept : ℕ → Result Errno (ℕ × SockAddr) → Event
  getsockname : ℕ → Result Errno ℕ → Event
  shutdown : ℕ → How → Option Errno → Event
  dup_cloexec : ℕ → Result Errno ℕ → Event
  close : ℕ → Option Errno → Event
  associate set_modes : ℕ → Option Errno → Event

abbrev pub History : Type 0
History = List Event

pub record Kernel : Type 0 where
  pub on_socket : History → ℕ → ℕ → ℕ → Result Errno ℕ
  pub on_connect : History → ℕ → SockAddr → Option Errno
  pub on_bind : History → ℕ → SockAddr → Option Errno
  pub on_listen : History → ℕ → ℕ → Option Errno
  pub on_accept : History → ℕ → Result Errno (ℕ × SockAddr)
  pub on_getsockname : History → ℕ → Result Errno ℕ
  pub on_shutdown : History → ℕ → How → Option Errno
  pub on_dup_cloexec : History → ℕ → Result Errno ℕ
  pub on_close : History → ℕ → Option Errno
  pub on_associate : History → ℕ → Option Errno
  pub on_set_modes : History → ℕ → Option Errno

-- A function that makes calls. `none` means that the fuel of a retry loop ran out.
abbrev pub Run {ℓ} : Type ℓ → Type ℓ
Run A = History → Option (A × History)

abbrev pub return {ℓ} : {A : Type ℓ} → A → Run A
return a h = some (a, h)

infixl 5 ◌>>=◌ ◌>>◌
abbrev pub ◌>>=◌ {κ ℓ} : {B : Type κ} {A : Type ℓ} → Run A → (A → Run B) → Run B
◌>>=◌ m f h = elim (m h) [ none ↦ none | some (a, g) ↦ f a g ]

abbrev pub ◌>>◌ {κ ℓ} : {B : Type κ} {A : Type ℓ} → Run A → Run B → Run B
first >> then_run = first >>= λ _. then_run

-- A run whose first part is known.
pub >>=-some {κ ℓ} :
    {B : Type κ} {A : Type ℓ} (m : Run A) (f : A → Run B) (h : History) {a : A} {g : History}
    → m h ≡ some (a, g)
    → (m >>= f) h ≡ f a g
>>=-some {B = B} {A = A} m f h e =
    ap (λ (r : Option (A × History)). ◌>>=◌ {B = B} {A = A} (λ x. r) f h) e

-- `if err != nil { return nil, wrap(err) }` behind a call that returns a value or an error.
abbrev pub or_return {ℓ κ} :
    {E F : Type 0} {A : Type ℓ} {B : Type κ}
    → Result E A
    → (E → F)
    → (A → Run (Result F B))
    → Run (Result F B)
or_return (ok a) wrap next = next a
or_return (err e) wrap next = return (err (wrap e))

-- The same behind a call that returns an error alone.
abbrev pub unless_error {ℓ} :
    {E F : Type 0} {B : Type ℓ}
    → Option E
    → (E → Run (Result F B))
    → Run (Result F B)
    → Run (Result F B)
unless_error none failed next = next
unless_error (some e) failed next = failed e

module _ (k : Kernel) where
  abbrev pub call_socket : ℕ → ℕ → ℕ → Run (Result Errno ℕ)
  call_socket domain kind proto h =
      let r = k.on_socket h domain kind proto in some (r, socket domain kind proto r ∷ h)

  abbrev pub call_connect : ℕ → SockAddr → Run (Option Errno)
  call_connect fd sa h = let r = k.on_connect h fd sa in some (r, connect fd sa r ∷ h)

  abbrev pub call_bind : ℕ → SockAddr → Run (Option Errno)
  call_bind fd sa h = let r = k.on_bind h fd sa in some (r, bind fd sa r ∷ h)

  abbrev pub call_listen : ℕ → ℕ → Run (Option Errno)
  call_listen fd backlog h = let r = k.on_listen h fd backlog in some (r, listen fd backlog r ∷ h)

  abbrev pub call_accept : ℕ → Run (Result Errno (ℕ × SockAddr))
  call_accept fd h = let r = k.on_accept h fd in some (r, accept fd r ∷ h)

  abbrev pub call_getsockname : ℕ → Run (Result Errno ℕ)
  call_getsockname fd h = let r = k.on_getsockname h fd in some (r, getsockname fd r ∷ h)

  abbrev pub call_shutdown : ℕ → How → Run (Option Errno)
  call_shutdown fd how h = let r = k.on_shutdown h fd how in some (r, shutdown fd how r ∷ h)

  abbrev pub call_dup_cloexec : ℕ → Run (Result Errno ℕ)
  call_dup_cloexec fd h = let r = k.on_dup_cloexec h fd in some (r, dup_cloexec fd r ∷ h)

  abbrev pub call_close : ℕ → Run (Option Errno)
  call_close fd h = let r = k.on_close h fd in some (r, close fd r ∷ h)

  abbrev pub call_associate : ℕ → Run (Option Errno)
  call_associate fd h = let r = k.on_associate h fd in some (r, associate fd r ∷ h)

  abbrev pub call_set_modes : ℕ → Run (Option Errno)
  call_set_modes fd h = let r = k.on_set_modes h fd in some (r, set_modes fd r ∷ h)
