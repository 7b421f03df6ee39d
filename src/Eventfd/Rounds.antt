-- ===== src/Eventfd/Rounds.antt =====
-- src/fs/eventfd.c: the poll status tells which calls would wait, and the one write that is let
-- through though it should not be.
use foreign_linux.Base.{
  ℕ, ◌+◌, ◌-◌, ◌≤◌, ◌<◌, ◌≡◌, ◌↔◌, refl, false, none, ltb, if◌then◌else◌, arith,
}
use foreign_linux.Eventfd.{
  Eventfd, Semaphore, ok, eagain, returns, waits, value_max, wrap64, eventfd_get_poll_status,
  read_round, write_round, eventfd_read, eventfd_write,
}

-- A read that asks for 8 bytes waits, or fails with EAGAIN, exactly where POLLIN is not reported;
-- the same holds for a write of 1 and POLLOUT while the counter is in its range.
pub eventfd_get_poll_status_lem :
    (sem : Semaphore) (efd : Eventfd)
    → efd.value ≤ value_max
    → (((eventfd_get_poll_status efd).pollin ≡ false)
        ↔ (eventfd_read sem efd 8 ≡ (if efd.nonblock then returns efd eagain none else waits)))
      × (((eventfd_get_poll_status efd).pollout ≡ false)
          ↔ (eventfd_write sem efd 1 8 ≡ (if efd.nonblock then returns efd eagain none else waits)))
unfolding eventfd_get_poll_status eventfd_read eventfd_write read_round write_round
eventfd_get_poll_status_lem sem efd h =
    let w : efd.value + 1 < 18446744073709551616 → wrap64 (efd.value + 1) ≡ efd.value + 1 =
      λ k. omega arith in
    ((λ e. ground arith, λ e. ground arith), (λ e. ground arith, λ e. ground arith))

-- A write whose sum with the counter passes 2^64 is let through: it returns 8 and leaves the
-- counter below what it was.
pub eventfd_write_wraps :
    (sem : Semaphore) (efd : Eventfd) (input : ℕ)
    → efd.value ≤ value_max
    → input < 18446744073709551616
    → 18446744073709551616 ≤ efd.value + input
    → (eventfd_write sem efd input 8
        ≡ returns
            (record efd {
              value = efd.value + input - 18446744073709551616;
              sem_canread = sem.release efd.sem_canread;
            })
            (ok 8)
            none)
      × (efd.value + input - 18446744073709551616 < efd.value)
unfolding eventfd_write write_round
eventfd_write_wraps sem efd input h i k =
    let w : wrap64 (efd.value + input) ≡ efd.value + input - 18446744073709551616 = omega arith in
    let m : ltb value_max (efd.value + input - 18446744073709551616) ≡ false = ground arith in
    (rw (w, m) refl, omega arith)
