-- ===== src/Eventfd/Conservation.antt =====
-- src/fs/eventfd.c: nothing that is written is lost and nothing is read twice, in any order of the
-- rounds of readers and writers.
use foreign_linux.Base.{ℕ, ◌+◌, ◌≡◌, none, some, List, [], ◌∷◌, arith}
use foreign_linux.Eventfd.{
  Eventfd, Semaphore, ok, einval, eagain, enomem, Round, returns, waits, wrap64, eventfd_read,
  eventfd_write, read_round, write_round,
}

-- One round of a call, or a change of the semaphores by a thread that wakes up.
pub data Call : Type 0 where
  reads : (count : ℕ) → Call
  writes : (input count : ℕ) → Call
  waken : (sem_canread sem_canwrite : ℕ) → Call

-- The eventfd after a round, what a write that returned a count has put in, and what a read has
-- handed over.
unfoldable pub after : Eventfd → Round → Eventfd
after efd (returns next ret output) = next
after efd waits = efd

unfoldable pub accepted : ℕ → Round → ℕ
accepted input (returns next (ok n) output) = input
accepted input (returns next einval output) = 0
accepted input (returns next eagain output) = 0
accepted input (returns next enomem output) = 0
accepted input waits = 0

unfoldable pub handed : Round → ℕ
handed (returns next ret (some n)) = n
handed (returns next ret none) = 0
handed waits = 0

module _ (sem : Semaphore) where
  unfoldable pub call_once : Eventfd → Call → Eventfd
  unfolding after
  call_once efd (reads count) = after efd (eventfd_read sem efd count)
  call_once efd (writes input count) = after efd (eventfd_write sem efd input count)
  call_once efd (waken r w) = record efd { sem_canread = r; sem_canwrite = w }

  unfoldable pub put_in : Eventfd → Call → ℕ
  put_in efd (reads count) = 0
  put_in efd (writes input count) = accepted input (eventfd_write sem efd input count)
  put_in efd (waken r w) = 0

  unfoldable pub taken_out : Eventfd → Call → ℕ
  taken_out efd (reads count) = handed (eventfd_read sem efd count)
  taken_out efd (writes input count) = 0
  taken_out efd (waken r w) = 0

  unfoldable pub finally : Eventfd → List Call → Eventfd
  finally efd [] = efd
  finally efd (c ∷ calls) = finally (call_once efd c) calls

  unfoldable pub total_in : Eventfd → List Call → ℕ
  total_in efd [] = 0
  total_in efd (c ∷ calls) = put_in efd c + total_in (call_once efd c) calls

  unfoldable pub total_out : Eventfd → List Call → ℕ
  total_out efd [] = 0
  total_out efd (c ∷ calls) = taken_out efd c + total_out (call_once efd c) calls

  read_kept :
      (efd : Eventfd) (count : ℕ)
      → efd.value
        ≡ handed (eventfd_read sem efd count) + (after efd (eventfd_read sem efd count)).value
  unfolding eventfd_read read_round handed after
  read_kept efd count = ground arith

  write_kept :
      (efd : Eventfd) (input count : ℕ)
      → wrap64 (efd.value + accepted input (eventfd_write sem efd input count))
        ≡ wrap64 ((after efd (eventfd_write sem efd input count)).value)
  unfolding eventfd_write write_round accepted after
  write_kept efd input count = ground arith

  call_kept :
      (efd : Eventfd) (c : Call)
      → wrap64 (efd.value + put_in efd c) ≡ wrap64 (taken_out efd c + (call_once efd c).value)
  unfolding call_once put_in taken_out
  call_kept efd (reads count) = let e = read_kept efd count in omega arith
  call_kept efd (writes input count) = let e = write_kept efd input count in omega arith
  call_kept efd (waken r w) = omega arith

  -- After any rounds of reads and writes, of every count and input, that return, fail or wait, what
  -- the counter held and the writes put in is what the reads handed over and the counter holds
  -- now, up to a multiple of 2^64.
  pub total_out-total_in :
      (efd : Eventfd) (calls : List Call)
      → wrap64 (efd.value + total_in efd calls)
        ≡ wrap64 (total_out efd calls + (finally efd calls).value)
  unfolding total_in total_out finally
  total_out-total_in efd [] = omega arith
  total_out-total_in efd (c ∷ calls) =
      let e = call_kept efd c in let ih = total_out-total_in (call_once efd c) calls in omega arith
