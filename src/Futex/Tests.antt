-- ===== src/Futex/Tests.antt =====
-- src/syscall/futex.c with three threads on two addresses.
use foreign_linux.Base.{
  ℕ, zero, suc, ◌≤◌, List, Option, ◌≡◌, refl, true, false, ◌||◌, none, some, [], ◌∷◌, arith, ◌==◌,
  if◌then◌else◌,
}
use foreign_linux.Futex.Wait.{wait_end, timeout}
use foreign_linux.Futex.{
  update, Ret, Block, State, ok, eagain, futex_hash, futex_requeue, futex_wake_requeue,
  value_changed, member,
}
use foreign_linux.Futex.Order.{matching, others, futex_requeue_lem, futex_requeue_changed}
use foreign_linux.Futex.Tickets.{tickets, queued, queued-update, blocks, futex_wake_requeue-tickets}
use foreign_linux.Futex.Locks.{run, futex_wake_requeue-locks}
use foreign_linux.Futex.System.Reach.{System, Reach}

abbrev block : ℕ → ℕ → Block
block t a = record { thread = t; addr = a }

-- Threads 1 and 3 wait on address 5, thread 2 on address 261 of the same bucket.
abbrev waiting : State
waiting = record {
  wait_list = λ i. if 5 == i then block 1 5 ∷ block 2 261 ∷ block 3 5 ∷ [] else [];
  wait_event = λ t. false;
  mem = λ a. 0;
}

abbrev quiet : State
quiet = record { wait_list = λ i. []; wait_event = λ t. false; mem = λ a. 0 }

futex_requeue_lem_example :
    ((futex_requeue waiting 5 1 6 (some 0)).ret ≡ ok 1)
    × ((t : ℕ)
        → (futex_requeue waiting 5 1 6 (some 0)).state.wait_event t ≡ (false || member t (1 ∷ [])))
    × ((futex_requeue waiting 5 1 6 (some 0)).state.wait_list 5 ≡ block 2 261 ∷ [])
    × ((futex_requeue waiting 5 1 6 (some 0)).state.wait_list 6 ≡ block 3 6 ∷ [])
unfolding matching others
futex_requeue_lem_example = futex_requeue_lem waiting 5 1 6 (some 0) (ground arith) refl

futex_requeue_changed_example :
    ((futex_requeue waiting 5 1 6 (some 9)).state ≡ waiting)
    × ((futex_requeue waiting 5 1 6 (some 9)).ret ≡ eagain)
futex_requeue_changed_example = futex_requeue_changed waiting 5 1 6 9 (ground arith)

no_tickets : (n t : ℕ) → queued t n quiet.wait_list ≡ 0
unfolding queued blocks
no_tickets zero t = refl
no_tickets (suc n) t = omega (arith, no_tickets n t)

-- The tickets where only the bucket 5 has waiters.
bucket_5 : (t : ℕ) (bs : List Block) → queued t 256 (λ i. if 5 == i then bs else []) ≡ blocks t bs
unfolding blocks
bucket_5 t bs =
    omega (arith, queued-update t 256 quiet.wait_list 5 bs (omega arith), no_tickets 256 t)

waiting-AtMostOne : (t : ℕ) → tickets t waiting ≤ 1
unfolding blocks
waiting-AtMostOne t = ground (arith, bucket_5 t (block 1 5 ∷ block 2 261 ∷ block 3 5 ∷ []))

futex_wake_requeue-tickets_example :
    tickets 3 (futex_wake_requeue waiting 5 1 (some 6) none).state ≡ tickets 3 waiting
futex_wake_requeue-tickets_example =
    futex_wake_requeue-tickets waiting 5 1 (some 6) none waiting-AtMostOne 3

futex_wake_requeue-locks_example :
    (value_changed waiting 5 (some 261) (some 9) ≡ false
      → run [] (futex_wake_requeue waiting 5 1 (some 261) (some 9)).locks ≡ some [])
    × ((target : ℕ)
        → some 261 ≡ some target
        → value_changed waiting 5 (some 261) (some 9) ≡ true
        → run [] (futex_wake_requeue waiting 5 1 (some 261) (some 9)).locks
          ≡ (if 5 == futex_hash target then none else some []))
futex_wake_requeue-locks_example = futex_wake_requeue-locks waiting 5 1 (some 261) (some 9)

-- The threads 1, 2 and 3 sleep on address 5.
abbrev sleepers : List Block
sleepers = block 1 5 ∷ block 2 5 ∷ block 3 5 ∷ []

abbrev asleep_system : System
asleep_system = record {
  state = record {
    wait_list = λ i. if 5 == i then sleepers else [];
    wait_event = λ t. false;
    mem = λ a. 0;
  };
  sleeps = λ t. if t == 1 || t == 2 || t == 3 then some 5 else none;
}

-- They are requeued to address 6, and the second one gives up after its time.
abbrev requeued : State
requeued = (futex_wake_requeue (asleep_system.state) 5 0 (some 6) none).state

abbrev state_of : Option (State × Ret) → State
state_of none = quiet
state_of (some (s, r)) = s

abbrev given_up : State
given_up = state_of (wait_end requeued 2 5 timeout)

abbrev finished : System
finished = record { state = given_up; sleeps = update asleep_system.sleeps 2 none }
