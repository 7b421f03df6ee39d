-- ===== src/Eventfd/Readers.antt =====
-- src/fs/eventfd.c: any number of readers that block, in any order with the writes.
use foreign_linux.Base.{ℕ, ◌+◌, ◌-◌, ◌<◌, ◌≡◌, ◌⊎◌, inl, inr, Bool-cases, Option, some, ltb, arith}
use foreign_linux.Eventfd.{
  Eventfd, Semaphore, Ret, returns, waits, value_max, wrap64, read_round, write_round,
}

-- `waiting` readers have released the mutex and wait for `sem_canread`, `woken` ones have got
-- through it and have not taken the mutex yet.
pub record Readers : Type 0 where
  pub efd : Eventfd
  pub waiting : ℕ
  pub woken : ℕ

-- What the documentation of the Win32 semaphores says of one with the limit 1.
pub record IsSemaphore (sem : Semaphore) : Type 0 where
  pub release-signals : (n : ℕ) → 0 < sem.release n
  pub take-one : (n m : ℕ) → sem.take n ≡ some m → n ≡ m + 1

pub data Step (sem : Semaphore) : Readers → Readers → Type 0 where
  read :
      (r : Readers) (efd : Eventfd) (ret : Ret) (output : Option ℕ)
      → read_round sem r.efd ≡ returns efd ret output
      → Step sem r (record r { efd = efd })
  sleep :
      (r : Readers)
      → read_round sem r.efd ≡ waits
      → Step sem r (record r { waiting = r.waiting + 1 })
  wake :
      (r : Readers) (n : ℕ)
      → 0 < r.waiting
      → sem.take r.efd.sem_canread ≡ some n
      → Step sem r (record r {
        efd = record r.efd { sem_canread = n };
        waiting = r.waiting - 1;
        woken = r.woken + 1;
      })
  resume :
      (r : Readers) (efd : Eventfd) (ret : Ret) (output : Option ℕ)
      → 0 < r.woken
      → read_round sem r.efd ≡ returns efd ret output
      → Step sem r (record r { efd = efd; woken = r.woken - 1 })
  sleep_again :
      (r : Readers)
      → 0 < r.woken
      → read_round sem r.efd ≡ waits
      → Step sem r (record r { waiting = r.waiting + 1; woken = r.woken - 1 })
  write :
      (r : Readers) (input : ℕ) (efd : Eventfd) (ret : Ret) (output : Option ℕ)
      → write_round sem r.efd input ≡ returns efd ret output
      → Step sem r (record r { efd = efd })

pub data Reach (sem : Semaphore) (start : Readers) : Readers → Type 0 where
  here : Reach sem start start
  there : (r s : Readers) → Reach sem start r → Step sem r s → Reach sem start s

-- Where there is something to read, a reader that waits is not left alone.
abbrev IsServed : Readers → Type 0
IsServed r = 0 < r.efd.value → 0 < r.waiting → 0 < r.efd.sem_canread + r.woken

module _ (sem : Semaphore) (law : IsSemaphore sem) where
  read_round-value :
      (e efd : Eventfd) (ret : Ret) (output : Option ℕ)
      → read_round sem e ≡ returns efd ret output
      → efd.value ≡ 0
  unfolding read_round
  read_round-value e efd ret output h = ground arith

  read_round-waits : (e : Eventfd) → read_round sem e ≡ waits → e.value ≡ 0
  unfolding read_round
  read_round-waits e h = ground arith

  write_round-signals :
      (e efd : Eventfd) (input : ℕ) (ret : Ret) (output : Option ℕ)
      → write_round sem e input ≡ returns efd ret output
      → ((efd.value ≡ e.value) × (efd.sem_canread ≡ e.sem_canread)) ⊎ (0 < efd.sem_canread)
  unfolding write_round
  write_round-signals e efd input ret output h =
      let signalled : 0 < sem.release e.sem_canread = law.release-signals e.sem_canread in
      elim (Bool-cases (ltb value_max (wrap64 (e.value + input)))) [
        | inl full ↦ inl (ground arith)
        | inr fits ↦ inr (ground arith)
      ]

  step-IsServed : (r s : Readers) → Step sem r s → IsServed r → IsServed s
  step-IsServed r _ (read r' efd ret output e) i =
      λ v w. absurd (omega (arith, read_round-value r.efd efd ret output e))
  step-IsServed r _ (sleep r' e) i = λ v w. absurd (omega (arith, read_round-waits r.efd e))
  step-IsServed r _ (wake r' n p e) i = λ v w. omega arith
  step-IsServed r _ (resume r' efd ret output p e) i =
      λ v w. absurd (omega (arith, read_round-value r.efd efd ret output e))
  step-IsServed r _ (sleep_again r' p e) i = λ v w. absurd (omega (arith, read_round-waits r.efd e))
  step-IsServed r _ (write r' input efd ret output e) i =
      elim (write_round-signals r.efd efd input ret output e) [
        | inl (v0, c0) ↦ λ v w. let served = i (omega arith) w in omega arith
        | inr signalled ↦ λ v w. omega arith
      ]

  Reach-IsServed : (start r : Readers) → Reach sem start r → IsServed start → IsServed r
  Reach-IsServed start _ here i = i
  Reach-IsServed start _ (there r s p e) i = step-IsServed r s e (Reach-IsServed start r p i)

-- From an eventfd on which nobody waits yet, whatever reads, writes and wake-ups follow in any
-- order: while the counter is not 0 and a reader waits, the semaphore of the readers is signalled
-- or another reader that it has let through is about to read.
pub no_reader_left :
    (sem : Semaphore) (start r : Readers)
    → IsSemaphore sem
    → start.waiting ≡ 0
    → Reach sem start r
    → 0 < r.efd.value
    → 0 < r.waiting
    → 0 < r.efd.sem_canread + r.woken
no_reader_left sem start r law z p = Reach-IsServed sem law start r p (λ v w. absurd (omega arith))
