-- ===== src/Eventfd.antt =====
-- src/fs/eventfd.c: a 64-bit counter under a mutex, with a semaphore for the readers that wait and
-- one for the writers. A part of a call between taking and releasing the mutex is one round.
pub mod Tests
pub mod Rounds
pub mod Readers
pub mod Conservation
use foreign_linux.Base.{
  ℕ, ◌+◌, ◌%◌, Bool, true, false, Option, none, some, ltb, ◌==◌, if◌then◌else◌,
}

pub record Eventfd : Type 0 where
  pub value : ℕ
  pub sem_canread : ℕ
  pub sem_canwrite : ℕ
  pub nonblock : Bool

-- The Win32 semaphores: the count after ReleaseSemaphore(h, 1, NULL) on one with the limit 1, and
-- that after WaitForSingleObject, `none` while the thread has to wait.
pub record Semaphore : Type 0 where
  pub release : ℕ → ℕ
  pub take : ℕ → Option ℕ

pub data Ret : Type 0 where
  ok : ℕ → Ret
  einval eagain enomem : Ret

pub data Round : Type 0 where
  returns : Eventfd → Ret → (output : Option ℕ) → Round
  waits : Round

abbrev pub value_max : ℕ
value_max = 18446744073709551614

abbrev pub wrap64 : ℕ → ℕ
wrap64 n = n % 18446744073709551616

pub record Poll : Type 0 where
  pub pollin : Bool
  pub pollout : Bool

-- EFD_SEMAPHORE, EFD_NONBLOCK, and whether CreateFileMapping and MapViewOfFile succeed.
pub eventfd_alloc : (count : ℕ) → (semaphore nonblock mapping view : Bool) → Option Eventfd × Ret
eventfd_alloc count true nonblock mapping view = (none, einval)
eventfd_alloc count false nonblock false view = (none, enomem)
eventfd_alloc count false nonblock true false = (none, enomem)
eventfd_alloc count false nonblock true true =
    let efd : Eventfd = record {
      value = count;
      sem_canread = 0;
      sem_canwrite = 1;
      nonblock = nonblock;
    } in
    (some efd, ok 0)

pub eventfd_get_poll_status : Eventfd → Poll
eventfd_get_poll_status efd = record { pollin = ltb 0 efd.value; pollout = ltb efd.value value_max }

module _ (sem : Semaphore) where
  unfoldable pub read_round : Eventfd → Round
  read_round efd =
      let emptied = record efd { value = 0; sem_canwrite = sem.release efd.sem_canwrite } in
      if efd.value == 0
      then (if efd.nonblock then returns efd eagain none else waits)
      else returns emptied (ok 8) (some efd.value)

  pub eventfd_read : Eventfd → (count : ℕ) → Round
  unfolding read_round
  eventfd_read efd count = if ltb count 8 then returns efd einval none else read_round efd

  unfoldable pub write_round : Eventfd → (input : ℕ) → Round
  write_round efd input =
      let filled = record efd {
        value = wrap64 (efd.value + input);
        sem_canread = sem.release efd.sem_canread;
      } in
      if ltb value_max (wrap64 (efd.value + input))
      then (if efd.nonblock then returns efd eagain none else waits)
      else returns filled (ok 8) none

  pub eventfd_write : Eventfd → (input count : ℕ) → Round
  unfolding write_round
  eventfd_write efd input count =
      if ltb count 8 then returns efd einval none else write_round efd input
