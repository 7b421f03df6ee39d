-- ===== src/Futex/Order.antt =====
-- Which waiters a call of futex_wake_requeue wakes, and in which order the others stay or move.
use foreign_linux.Base.{
  ℕ, zero, suc, ◌+◌, ◌≡◌, ◌≢◌, refl, ap, Bool, false, Option, none, some, List, [], ◌∷◌, ◌++◌,
  arith, length, take, drop, ◌==◌, if◌then◌else◌, min, ◌||◌, ◌∙◌,
}
use mathlib.Core.List.{map}
use foreign_linux.Futex.{
  Block, State, wake_loop, futex_wake, futex_requeue, futex_hash, ok, eagain, value_changed, member,
}

-- The waiters on an address in a wait list, and the other blocks, in order.
unfoldable pub matching : ℕ → List Block → List Block
matching addr [] = []
matching addr (b ∷ bs) = if b.addr == addr then b ∷ matching addr bs else matching addr bs

unfoldable pub others : ℕ → List Block → List Block
others addr [] = []
others addr (b ∷ bs) = if b.addr == addr then others addr bs else b ∷ others addr bs

abbrev pub threads : List Block → List ℕ
threads = map (λ b. b.thread)

abbrev pub redirect : ℕ → List Block → List Block
redirect target [] = []
redirect target (b ∷ bs) = record b { addr = target } ∷ redirect target bs

-- What a plain wake leaves, with `left` threads still to be woken.
wake_loop-none :
    (addr count : ℕ) (same : Bool) (num_woken left : ℕ) (bs : List Block)
    → num_woken + left ≡ count
    → let r = wake_loop addr count same none num_woken bs in
      (r.woken ≡ take left (threads (matching addr bs)))
      × (matching addr r.kept ≡ drop left (matching addr bs))
      × (others addr r.kept ≡ others addr bs)
      × (r.moved ≡ [])
unfolding wake_loop matching others
wake_loop-none addr count same n zero [] e = ground arith
wake_loop-none addr count same n (suc left) [] e = ground arith
wake_loop-none addr count same n zero (b ∷ bs) e = ground arith
wake_loop-none addr count same n (suc left) (b ∷ bs) e = ground (
  arith,
  wake_loop-none addr count same (n + 1) left bs,
  wake_loop-none addr count same n (suc left) bs,
)

-- A requeue: the waiters after the first `left` go to the target, in one bucket or two.
wake_loop-some :
    (addr count : ℕ) (same : Bool) (target num_woken left : ℕ) (bs : List Block)
    → num_woken + left ≡ count
    → let r = wake_loop addr count same (some target) num_woken bs in
      (r.woken ≡ take left (threads (matching addr bs)))
      × (same ≡ false
          → (r.moved ≡ redirect target (drop left (matching addr bs))) × (r.kept ≡ others addr bs))
unfolding wake_loop matching others
wake_loop-some addr count same target n zero [] e = ground arith
wake_loop-some addr count same target n (suc left) [] e = ground arith
wake_loop-some addr count same target n zero (b ∷ bs) e =
    ground (arith, wake_loop-some addr count same target n zero bs)
wake_loop-some addr count same target n (suc left) (b ∷ bs) e = ground (
  arith,
  wake_loop-some addr count same target (n + 1) left bs,
  wake_loop-some addr count same target n (suc left) bs,
)

length-take_threads : (n : ℕ) (bs : List Block) → length (take n (threads bs)) ≡ min n (length bs)
length-take_threads zero bs = omega arith
length-take_threads (suc n) [] = omega arith
length-take_threads (suc n) (b ∷ bs) = omega (arith, length-take_threads n bs)

-- `futex_wake` sets the events of the first `count` waiters on the address, in the order in which
-- they came, and returns their number; the later waiters and all other blocks of the bucket stay in
-- their order, and no other bucket changes.
pub futex_wake_lem :
    (s : State) (addr count : ℕ)
    → let o = futex_wake s addr count in
      let waiters = matching addr (s.wait_list (futex_hash addr)) in
      (o.ret ≡ ok (min count (length waiters)))
      × ((t : ℕ)
          → o.state.wait_event t ≡ (s.wait_event t || member t (take count (threads waiters))))
      × (matching addr (o.state.wait_list (futex_hash addr)) ≡ drop count waiters)
      × (others addr (o.state.wait_list (futex_hash addr))
          ≡ others addr (s.wait_list (futex_hash addr)))
      × ((i : ℕ) → i ≢ futex_hash addr → o.state.wait_list i ≡ s.wait_list i)
unfolding futex_wake
futex_wake_lem s addr count =
    let bs = s.wait_list (futex_hash addr) in
    let r = wake_loop-none addr count false 0 count bs (omega arith) in
    (
      ap ok (ap length r.0 ∙ length-take_threads count (matching addr bs)),
      λ t. ap (λ us. s.wait_event t || member t us) r.0,
      ground (arith, r),
      ground (arith, r),
      λ i ne. ground arith,
    )

-- `futex_requeue` to another bucket, where the expected value still stands: the first `count`
-- waiters are woken and counted, all later ones are appended to the wait list of the target in their
-- order and wait on the target from then on, and the blocks of other addresses stay.
pub futex_requeue_lem :
    (s : State) (addr count target : ℕ) (val : Option ℕ)
    → futex_hash addr ≢ futex_hash target
    → value_changed s addr (some target) val ≡ false
    → let o = futex_requeue s addr count target val in
      let waiters = matching addr (s.wait_list (futex_hash addr)) in
      (o.ret ≡ ok (min count (length waiters)))
      × ((t : ℕ)
          → o.state.wait_event t ≡ (s.wait_event t || member t (take count (threads waiters))))
      × (o.state.wait_list (futex_hash addr) ≡ others addr (s.wait_list (futex_hash addr)))
      × (o.state.wait_list (futex_hash target)
          ≡ s.wait_list (futex_hash target) ++ redirect target (drop count waiters))
unfolding futex_requeue
futex_requeue_lem s addr count target val ne same =
    let bs = s.wait_list (futex_hash addr) in
    let apart : (futex_hash addr == futex_hash target) ≡ false = ground arith in
    let r = wake_loop-some addr count false target 0 count bs (omega arith) in
    rw (same, apart)
      (
        ap ok (ap length r.0 ∙ length-take_threads count (matching addr bs)),
        λ t. ap (λ us. s.wait_event t || member t us) r.0,
        ground (arith, r.1 refl),
        ground (arith, r.1 refl),
      )

-- Where the value has changed nothing happens, and the caller is told to try again.
pub futex_requeue_changed :
    (s : State) (addr count target val : ℕ)
    → s.mem addr ≢ val
    → let o = futex_requeue s addr count target (some val) in (o.state ≡ s) × (o.ret ≡ eagain)
unfolding futex_requeue
futex_requeue_changed s addr count target val h =
    let differs : (s.mem addr == val) ≡ false = ground arith in rw differs (refl, refl)
