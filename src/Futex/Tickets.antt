-- ===== src/Futex/Tickets.antt =====
-- A thread's tickets: its wait blocks in all buckets, and its event.
use foreign_linux.Base.{
  ℕ, zero, suc, ◌+◌, ◌≤◌, ◌<◌, ◌≡◌, refl, ◌∙◌, Bool, false, ◌||◌, Option, none, some, List, [], ◌∷◌,
  ◌++◌, arith, ltb, ◌==◌, if◌then◌else◌, Bool-cases, inl, inr,
}
use foreign_linux.Futex.{
  Block, State, wake_loop, futex_wake_requeue, futex_hash, update, value_changed, member,
}

-- How often a thread stands in a wait list, and in a list of threads.
unfoldable pub blocks : ℕ → List Block → ℕ
blocks t [] = 0
blocks t (b ∷ bs) = (if b.thread == t then 1 else 0) + blocks t bs

unfoldable pub times : ℕ → List ℕ → ℕ
times t [] = 0
times t (u ∷ us) = (if u == t then 1 else 0) + times t us

-- Over the first `n` buckets.
unfoldable pub queued : ℕ → ℕ → (ℕ → List Block) → ℕ
queued t zero lists = 0
queued t (suc n) lists = queued t n lists + blocks t (lists n)

abbrev pub tickets : ℕ → State → ℕ
tickets t s = queued t 256 s.wait_list + (if s.wait_event t then 1 else 0)

pub blocks-append : (t : ℕ) (xs ys : List Block) → blocks t (xs ++ ys) ≡ blocks t xs + blocks t ys
unfolding blocks
blocks-append t [] ys = omega arith
blocks-append t (x ∷ xs) ys = omega (arith, blocks-append t xs ys)

queued-update_out :
    (t n : ℕ) (lists : ℕ → List Block) (i : ℕ) (bs : List Block)
    → n ≤ i
    → queued t n (update lists i bs) ≡ queued t n lists
unfolding queued
queued-update_out t zero lists i bs h = refl
queued-update_out t (suc n) lists i bs h = ground (arith, queued-update_out t n lists i bs)

-- One list is exchanged.
pub queued-update :
    (t n : ℕ) (lists : ℕ → List Block) (i : ℕ) (bs : List Block)
    → i < n
    → queued t n (update lists i bs) + blocks t (lists i) ≡ queued t n lists + blocks t bs
unfolding queued
queued-update t zero lists i bs h = absurd (omega arith)
queued-update t (suc n) lists i bs h =
    ground (arith, queued-update t n lists i bs, queued-update_out t n lists i bs)

member-times : (t : ℕ) (us : List ℕ) → member t us ≡ ltb 0 (times t us)
unfolding times
member-times t [] = refl
member-times t (u ∷ us) = ground (arith, member-times t us)

wake_loop-blocks :
    (t addr count : ℕ) (same : Bool) (requeue : Option ℕ) (n : ℕ) (bs : List Block)
    → let r = wake_loop addr count same requeue n bs in
      blocks t bs ≡ blocks t r.kept + blocks t r.moved + times t r.woken
unfolding wake_loop blocks times
wake_loop-blocks t addr count same requeue n [] = ground arith
wake_loop-blocks t addr count same none n (b ∷ bs) = ground (
  arith,
  wake_loop-blocks t addr count same none n bs,
  wake_loop-blocks t addr count same none (n + 1) bs,
)
wake_loop-blocks t addr count same (some target) n (b ∷ bs) = ground (
  arith,
  wake_loop-blocks t addr count same (some target) n bs,
  wake_loop-blocks t addr count same (some target) (n + 1) bs,
)

-- A thread holds at most one ticket.
abbrev pub AtMostOne : State → Type 0
AtMostOne s = (t : ℕ) → tickets t s ≤ 1

pub queued-ge :
    (t n : ℕ) (lists : ℕ → List Block) (i : ℕ) → i < n → blocks t (lists i) ≤ queued t n lists
unfolding queued
queued-ge t zero lists i h = absurd (omega arith)
queued-ge t (suc n) lists i h = elim (Bool-cases (i == n)) [
  | inl e ↦ let e' : i ≡ n = ground arith in rw e' (omega arith)
  | inr ne ↦ ground (arith, queued-ge t n lists i)
]

abbrev bit : Bool → ℕ
bit b = if b then 1 else 0

-- The threads that leave the lists are those whose event is set.
balance :
    (event woken : Bool) (before after list left gone : ℕ)
    → after + list ≡ before + left
    → list ≡ left + gone
    → list ≤ before
    → before + bit event ≤ 1
    → woken ≡ ltb 0 gone
    → after + bit (event || woken) ≡ before + bit event
balance event woken before after list left gone a l le one w = ground arith

wake_loop-moved :
    (addr count : ℕ) (same : Bool) (n : ℕ) (bs : List Block)
    → (wake_loop addr count same none n bs).moved ≡ []
unfolding wake_loop
wake_loop-moved addr count same n [] = refl
wake_loop-moved addr count same n (b ∷ bs) =
    ground (arith, wake_loop-moved addr count same n bs, wake_loop-moved addr count same (n + 1) bs)

module _ (s : State) (addr count : ℕ) (t : ℕ) (one : tickets t s ≤ 1) where
  wake-tickets :
      let bucket = futex_hash addr in
      let r = wake_loop addr count false none 0 (s.wait_list bucket) in
      queued t 256 (update s.wait_list bucket r.kept) + bit (s.wait_event t || member t r.woken)
      ≡ tickets t s
  unfolding blocks
  wake-tickets =
      let bucket = futex_hash addr in
      let bs = s.wait_list bucket in
      let r = wake_loop addr count false none 0 bs in
      balance (s.wait_event t) (member t r.woken) (queued t 256 s.wait_list) _ (blocks t bs)
        (blocks t r.kept) (times t r.woken)
        (queued-update t 256 s.wait_list bucket r.kept (omega arith))
        (rw (wake_loop-moved addr count false 0 bs) at
            (wake_loop-blocks t addr count false none 0 bs)
          ∙ omega arith)
        (queued-ge t 256 s.wait_list bucket (omega arith)) one (member-times t r.woken)

  requeue-tickets :
      (target : ℕ)
      → let bucket = futex_hash addr in
        let r =
          wake_loop addr count (bucket == futex_hash target) (some target) 0 (s.wait_list bucket) in
        let lists = update s.wait_list bucket r.kept in
        queued t 256 (update lists (futex_hash target) (lists (futex_hash target) ++ r.moved))
          + bit (s.wait_event t || member t r.woken)
        ≡ tickets t s
  requeue-tickets target =
      let bucket = futex_hash addr in
      let bs = s.wait_list bucket in
      let r = wake_loop addr count (bucket == futex_hash target) (some target) 0 bs in
      let lists = update s.wait_list bucket r.kept in
      let there = lists (futex_hash target) in
      balance (s.wait_event t) (member t r.woken) (queued t 256 s.wait_list) _ (blocks t bs)
        (blocks t r.kept + blocks t r.moved) (times t r.woken)
        (omega (
          arith,
          queued-update t 256 s.wait_list bucket r.kept (omega arith),
          queued-update t 256 lists (futex_hash target) (there ++ r.moved) (omega arith),
          blocks-append t there r.moved,
        ))
        (wake_loop-blocks t addr count (bucket == futex_hash target) (some target) 0 bs)
        (queued-ge t 256 s.wait_list bucket (omega arith)) one (member-times t r.woken)

-- A wake and a requeue lose no thread and wake none twice: each thread keeps its tickets, a wait
-- block or a set event, if no thread had more than one.
pub futex_wake_requeue-tickets :
    (s : State) (addr count : ℕ) (requeue_addr requeue_val : Option ℕ)
    → AtMostOne s
    → (t : ℕ)
    → tickets t (futex_wake_requeue s addr count requeue_addr requeue_val).state ≡ tickets t s
unfolding futex_wake_requeue
futex_wake_requeue-tickets s addr count none val one t = wake-tickets s addr count t (one t)
futex_wake_requeue-tickets s addr count (some target) val one t =
    elim (Bool-cases (value_changed s addr (some target) val)) [
      | inl e ↦ rw e refl
      | inr e ↦ rw e (requeue-tickets s addr count t (one t) target)
    ]
