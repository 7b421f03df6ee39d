-- ===== src/Futex.antt =====
-- src/syscall/futex.c: wait queues in 256 hash buckets, wake, requeue and wait.
-- A wait list is a list of wait blocks from head to tail.
-- A thread is a number; its `wait_event` is an auto-reset event. Addresses and values are numbers.
pub mod Tests
pub mod Order
pub mod Buckets
pub mod Wait
pub mod Tickets
pub mod Locks
pub mod System
use foreign_linux.Base.{
  ℕ, zero, suc, ◌+◌, ◌%◌, Bool, true, false, ◌&&◌, ◌||◌, not, Option, none, some, List, [], ◌∷◌,
  ◌++◌, ltb, ◌==◌, length, if◌then◌else◌,
}

pub record Block : Type 0 where
  pub thread : ℕ
  pub addr : ℕ

-- `hash[i].wait_list`, the events that are set, and the memory of the process.
pub record State : Type 0 where
  pub wait_list : ℕ → List Block
  pub wait_event : ℕ → Bool
  pub mem : ℕ → ℕ

-- What happens to the spin locks of the buckets, in order.
pub data LockOp : Type 0 where
  lock : ℕ → LockOp
  unlock : ℕ → LockOp

-- `ok n` is the return value n, the others are negative error numbers.
pub data Ret : Type 0 where
  ok : ℕ → Ret
  eagain eintr etimedout eacces efault enosys : Ret

abbrev pub futex_hash : ℕ → ℕ
futex_hash addr = addr % 256

abbrev pub update {ℓ} : {A : Type ℓ} → (ℕ → A) → ℕ → A → ℕ → A
update f i v j = if i == j then v else f j

pub lock_buckets : ℕ → ℕ → List LockOp
lock_buckets bucket1 bucket2 =
    if ltb bucket1 bucket2
    then lock bucket1 ∷ lock bucket2 ∷ []
    else lock bucket2 ∷ lock bucket1 ∷ []

-- What the loop of `futex_wake_requeue` does with a wait list: the blocks that stay, those that go
-- to the other bucket, and the threads whose event it sets, in order.
pub record Sweep : Type 0 where
  pub kept : List Block
  pub moved : List Block
  pub woken : List ℕ

abbrev pub nothing : List Block → Sweep
nothing bs = record { kept = bs; moved = []; woken = [] }

abbrev pub keep : Block → Sweep → Sweep
keep b r = record r { kept = b ∷ r.kept }

abbrev pub move : Block → Sweep → Sweep
move b r = record r { moved = b ∷ r.moved }

abbrev pub wake : Block → Sweep → Sweep
wake b r = record r { woken = b.thread ∷ r.woken }

abbrev pub is_some {ℓ} : {A : Type ℓ} → Option A → Bool
is_some none = false
is_some (some a) = true

-- `addr`, `count` and whether the two buckets are one; the target of a requeue. The list holds what
-- follows `prev`, and `num_woken` counts the threads woken so far.
module _ (addr count : ℕ) (same : Bool) where
  pub wake_loop : (requeue_addr : Option ℕ) → ℕ → List Block → Sweep
  wake_loop requeue_addr num_woken [] = nothing []
  wake_loop none num_woken (b ∷ bs) =
      let woken = wake b (wake_loop none (num_woken + 1) bs) in
      let kept = keep b (wake_loop none num_woken bs) in
      if num_woken == count then nothing (b ∷ bs) else if b.addr == addr then woken else kept
  wake_loop (some target) num_woken (b ∷ bs) =
      let woken = wake b (wake_loop (some target) (num_woken + 1) bs) in
      let kept = keep b (wake_loop (some target) num_woken bs) in
      let in_place = keep (record b { addr = target }) (wake_loop (some target) num_woken bs) in
      let moved = move (record b { addr = target }) (wake_loop (some target) num_woken bs) in
      if b.addr == addr
      then (if num_woken == count then (if same then in_place else moved) else woken)
      else kept

abbrev pub member : ℕ → List ℕ → Bool
member t [] = false
member t (u ∷ us) = u == t || member t us

-- The result of a call: the state, the return value and the lock operations.
pub record Outcome : Type 0 where
  pub state : State
  pub ret : Ret
  pub locks : List LockOp

abbrev pub acquire : ℕ → Option ℕ → List LockOp
acquire bucket none = lock bucket ∷ []
acquire bucket (some target) =
    if bucket == futex_hash target
    then lock bucket ∷ []
    else lock_buckets bucket (futex_hash target)

abbrev pub release : ℕ → Option ℕ → List LockOp
release bucket none = unlock bucket ∷ []
release bucket (some target) =
    if bucket == futex_hash target
    then unlock bucket ∷ []
    else unlock bucket ∷ unlock (futex_hash target) ∷ []

-- `unlock_bucket(bucket); unlock_bucket(bucket2);`, where the value has changed.
abbrev pub give_up : ℕ → Option ℕ → List LockOp
give_up bucket none = unlock bucket ∷ []
give_up bucket (some target) = unlock bucket ∷ unlock (futex_hash target) ∷ []

abbrev pub apply_sweep : State → ℕ → Option ℕ → Sweep → State
apply_sweep s bucket none r = record s {
  wait_list = update s.wait_list bucket r.kept;
  wait_event = λ t. s.wait_event t || member t r.woken;
}
apply_sweep s bucket (some target) r =
    let lists = update s.wait_list bucket r.kept in
    record s {
      wait_list = update lists (futex_hash target) (lists (futex_hash target) ++ r.moved);
      wait_event = λ t. s.wait_event t || member t r.woken;
    }

abbrev pub same_bucket : ℕ → Option ℕ → Bool
same_bucket bucket none = false
same_bucket bucket (some target) = bucket == futex_hash target

-- `requeue_addr && requeue_val && *addr != *requeue_val`
abbrev pub value_changed : State → ℕ → Option ℕ → Option ℕ → Bool
value_changed s addr (some target) (some val) = not (s.mem addr == val)
value_changed s addr _ _ = false

pub futex_wake_requeue : State → (addr count : ℕ) (requeue_addr requeue_val : Option ℕ) → Outcome
unfolding wake_loop lock_buckets
futex_wake_requeue s addr count requeue_addr requeue_val =
    let bucket = futex_hash addr in
    let r =
      wake_loop addr count (same_bucket bucket requeue_addr) requeue_addr 0 (s.wait_list bucket) in
    if value_changed s addr requeue_addr requeue_val
    then record {
      state = s;
      ret = eagain;
      locks = acquire bucket requeue_addr ++ give_up bucket requeue_addr;
    }
    else record {
      state = apply_sweep s bucket requeue_addr r;
      ret = ok (length r.woken);
      locks = acquire bucket requeue_addr ++ release bucket requeue_addr;
    }

pub futex_wake : State → (addr count : ℕ) → Outcome
unfolding futex_wake_requeue
futex_wake s addr count = futex_wake_requeue s addr count none none

pub futex_requeue : State → (addr count requeue_addr : ℕ) → (requeue_val : Option ℕ) → Outcome
unfolding futex_wake_requeue
futex_requeue s addr count requeue_addr requeue_val =
    futex_wake_requeue s addr count (some requeue_addr) requeue_val
