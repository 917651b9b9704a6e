-- ===== src/Tests/HvsockConns.antt =====
-- pkg/hvsock over a concrete kernel, a concrete raw write, and two threads.
use virtsock.Common.{
  count, ℕ, ok, suc, some, none, arith, false, ◌+◌, ◌≤◌, ◌<◌, ◌≡◌, refl, Option, List, ◌∷◌, [],
  Bytes, codes, length,
}
use virtsock.System.{History, Kernel}
use virtsock.System.Descriptors.{open_fds}
use virtsock.Hvsock.Guid.{template, from_string}
use virtsock.Hvsock.Addr.{Addr, guid_parent}
use virtsock.Hvsock.Write.{max_msg_size, write}
use virtsock.Hvsock.Write.Batches.{Returns, write-Returns}
use virtsock.Hvsock.Linux.{accept, sockaddr, Listener, new_hvsock_conn}
use virtsock.Hvsock.Linux.Accept.{accept-sockaddr}
use virtsock.Hvsock.Windows.Close.{
  Pc, io_start, close_start, io_locked, State, Reach, step, here, next, fresh, act,
}
use virtsock.Hvsock.Windows.Close.Invariant.{active, Reach-safe}
use virtsock.Hvsock.Windows.Io.{Course, io_pending, completed, Answer, read}
use virtsock.Hvsock.Windows.Io.Contract.{IsCourse, IsRead, read-IsRead}
use virtsock.Tests.Kernels.{moody}

-- It counts its calls and takes all bytes of each.
abbrev takes_all : Bytes → ℕ → (ℕ × Option ℕ) × ℕ
takes_all bs n = ((length bs, none), n + 1)

write-Returns_example :
    Returns max_msg_size takes_all 0 (codes "hello") 7 (write takes_all (codes "hello") 7)
write-Returns_example = write-Returns takes_all (codes "hello") 7

abbrev parent_template : Addr
parent_template = record { vmid = guid_parent; service_id = template }

-- A read and a close, of which the read has taken its lock.
abbrev two_threads : List Pc
two_threads = io_start ∷ close_start ∷ []

abbrev locked : State
locked = record {
  shared = record { closing = false; wg = 0; readers = 1; writer = false; closes = 0 };
  threads = io_locked ∷ close_start ∷ [];
}

locked-Reach : Reach (record { shared = fresh; threads = two_threads }) locked
unfolding act
locked-Reach =
    next here (step [] (close_start ∷ []) io_start io_locked false locked.shared refl refl refl)

Reach-safe_example :
    (locked.shared.closes ≤ 1)
    × (0 < count active locked.threads → locked.shared.closes ≡ 0)
    × (locked.shared.wg ≡ count active locked.threads)
Reach-safe_example = Reach-safe two_threads {t = locked} tt locked-Reach

-- A read that is pending and then completes with three bytes.
abbrev three_bytes : Course
three_bytes = record {
  refused = false;
  timed_out = false;
  issued = (0, some io_pending);
  wakeup = completed (3, none);
  closing = false;
}

three_bytes-IsCourse : IsCourse (suc 7) three_bytes
three_bytes-IsCourse = record {
  issued_is = tt;
  issued_le = omega arith;
  woken_is = tt;
  woken_le = omega arith;
}

read-IsRead_example : (a : Answer) × (read (suc 7) three_bytes ≡ some a) × IsRead (suc 7) a
read-IsRead_example = read-IsRead 7 three_bytes three_bytes-IsCourse

-- A kernel whose peers all have the same address.
abbrev popular : Kernel
popular = record moody { on_accept = λ h fd. ok (7, sockaddr parent_template) }

abbrev on_five : Listener
on_five = record { fd = 5; local = parent_template }

parent-length : length guid_parent ≡ 16
unfolding from_string
parent-length = refl

template-length : length template ≡ 16
unfolding from_string
template-length = refl

accept-sockaddr_example :
    (g : History) × (accept popular on_five []
      ≡ some (ok (new_hvsock_conn 7 parent_template parent_template), g))
    × (open_fds g ≡ 7 ∷ open_fds [])
accept-sockaddr_example =
    accept-sockaddr popular on_five [] 7 parent_template parent-length template-length refl
