-- ===== src/Futex/Locks.antt =====
-- The spin locks that a call of futex_wake_requeue takes and gives back.
use foreign_linux.Base.{
  ℕ, ◌≡◌, true, false, Option, none, some, List, [], ◌∷◌, arith, ltb, ◌==◌, if◌then◌else◌,
}
use foreign_linux.Futex.{
  State, LockOp, lock, unlock, futex_wake_requeue, futex_hash, value_changed, member,
}

abbrev pub remove : ℕ → List ℕ → List ℕ
remove i [] = []
remove i (j ∷ js) = if i == j then js else j ∷ remove i js

-- The locks held after some operations: `none` where a lock that is held is taken again, which never
-- returns, where locks are not taken in increasing order, or where one is given back that is not
-- held.
unfoldable pub run : List ℕ → List LockOp → Option (List ℕ)
run held [] = some held
run [] (lock i ∷ ops) = run (i ∷ []) ops
run (j ∷ held) (lock i ∷ ops) = if ltb j i then run (i ∷ j ∷ held) ops else none
run held (unlock i ∷ ops) = if member i held then run (remove i held) ops else none

-- A call takes its locks in increasing order and gives each back once, but for one case: where the
-- expected value has changed and both addresses share a bucket, that bucket is unlocked twice.
pub futex_wake_requeue-locks :
    (s : State) (addr count : ℕ) (requeue_addr requeue_val : Option ℕ)
    → let o = futex_wake_requeue s addr count requeue_addr requeue_val in
      (value_changed s addr requeue_addr requeue_val ≡ false → run [] o.locks ≡ some [])
      × ((target : ℕ)
          → requeue_addr ≡ some target
          → value_changed s addr requeue_addr requeue_val ≡ true
          → run [] o.locks ≡ (if futex_hash addr == futex_hash target then none else some []))
unfolding futex_wake_requeue run
futex_wake_requeue-locks s addr count none val = (λ c. ground arith, λ t e c. ground arith)
futex_wake_requeue-locks s addr count (some target) val = (λ c. ground arith, λ t e c. ground arith)
