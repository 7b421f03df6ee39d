-- ===== src/Eventfd/Tests.antt =====
-- src/fs/eventfd.c on a counter of 3.
use foreign_linux.Base.{
  [], ◌∷◌, ℕ, zero, suc, ◌+◌, ◌<◌, ◌≡◌, refl, false, Option, none, some, arith,
}
use foreign_linux.Eventfd.{
  Eventfd, Semaphore, wrap64, ok, eventfd_read, eventfd_write, read_round, write_round,
}
use foreign_linux.Eventfd.Conservation.{
  reads, writes, after, accepted, handed, total_in, total_out, finally, call_once, put_in,
  taken_out, total_out-total_in,
}
use foreign_linux.Eventfd.Readers.{
  Readers, IsSemaphore, Reach, here, there, sleep, write, no_reader_left,
}

abbrev semaphore : Semaphore
semaphore = record { release = λ n. 1; take = take_one }
  where
    take_one : ℕ → Option ℕ
    take_one zero = none
    take_one (suc n) = some n

abbrev three : Eventfd
three = record { value = 3; sem_canread = 0; sem_canwrite = 1; nonblock = false }

-- Two writes, a read and, with a buffer of 4 bytes, a read that fails: 3 + (4 + 5) is 12 + 0.
total_out-total_in_example : wrap64 (three.value + 9) ≡ wrap64 (12 + 0)
unfolding total_in total_out finally call_once put_in taken_out eventfd_read eventfd_write
    read_round write_round after accepted handed
total_out-total_in_example =
    total_out-total_in semaphore three (writes 4 8 ∷ writes 5 8 ∷ reads 8 ∷ reads 4 ∷ [])

semaphore-IsSemaphore : IsSemaphore semaphore
semaphore-IsSemaphore = record { release-signals = λ n. omega arith; take-one = one }
  where
    one : (n m : ℕ) → semaphore.take n ≡ some m → n ≡ m + 1
    one zero m e = ground arith
    one (suc n) m e = ground arith

abbrev blocked : Readers
blocked = record { efd = record three { value = 0 }; waiting = 0; woken = 0 }

-- A reader finds 0 and waits, then 4 is written.
abbrev written : Readers
written = record { efd = record three { value = 4; sem_canread = 1 }; waiting = 1; woken = 0 }

written-Reach : Reach semaphore blocked written
unfolding read_round write_round
written-Reach =
    there (record blocked { waiting = 1 }) written
      (there blocked (record blocked { waiting = 1 }) here (sleep blocked refl))
      (write (record blocked { waiting = 1 }) 4 (written.efd) (ok 8) none refl)

no_reader_left_example : 0 < 1 + 0
no_reader_left_example =
    no_reader_left semaphore blocked written semaphore-IsSemaphore refl written-Reach (omega arith)
      (omega arith)
