-- ===== src/Futex/Buckets.antt =====
-- Every wait block stands in the bucket of its address.
use foreign_linux.Base.{
  ℕ, ◌+◌, ◌≡◌, refl, Bool, true, false, ◌&&◌, Option, none, some, List, [], ◌∷◌, ◌++◌, arith, ◌==◌,
  Bool-cases, inl, inr,
}
use foreign_linux.Futex.{
  Block, State, wake_loop, futex_wake_requeue, futex_hash, update, value_changed,
}

-- Whether all blocks of a list belong to a bucket.
unfoldable pub all_in : ℕ → List Block → Bool
all_in i [] = true
all_in i (b ∷ bs) = futex_hash b.addr == i && all_in i bs

-- The invariant of the hash table.
abbrev pub IsHashed : State → Type 0
IsHashed s = (i : ℕ) → all_in i (s.wait_list i) ≡ true

all_in-append :
    (i : ℕ) (xs ys : List Block)
    → all_in i xs ≡ true
    → all_in i ys ≡ true
    → all_in i (xs ++ ys) ≡ true
unfolding all_in
all_in-append i [] ys h k = k
all_in-append i (x ∷ xs) ys h k = ground (arith, all_in-append i xs ys)

wake_loop-none-in :
    (addr count : ℕ) (same : Bool) (i n : ℕ) (bs : List Block)
    → all_in i bs ≡ true
    → all_in i (wake_loop addr count same none n bs).kept ≡ true
unfolding wake_loop all_in
wake_loop-none-in addr count same i n [] a = refl
wake_loop-none-in addr count same i n (b ∷ bs) a = ground (
  arith,
  wake_loop-none-in addr count same i n bs,
  wake_loop-none-in addr count same i (n + 1) bs,
)

-- The blocks that stay are in the same bucket, those that move belong to the target's.
wake_loop-some-in :
    (addr count : ℕ) (same : Bool) (target i n : ℕ) (bs : List Block)
    → same ≡ (i == futex_hash target)
    → all_in i bs ≡ true
    → let r = wake_loop addr count same (some target) n bs in
      (all_in i r.kept ≡ true) × (all_in (futex_hash target) r.moved ≡ true)
unfolding wake_loop all_in
wake_loop-some-in addr count same target i n [] e a = (refl, refl)
wake_loop-some-in addr count same target i n (b ∷ bs) e a = ground (
  arith,
  wake_loop-some-in addr count same target i n bs,
  wake_loop-some-in addr count same target i (n + 1) bs,
)

update-in :
    (lists : ℕ → List Block) (i : ℕ) (bs : List Block)
    → ((j : ℕ) → all_in j (lists j) ≡ true)
    → all_in i bs ≡ true
    → (j : ℕ) → all_in j (update lists i bs j) ≡ true
update-in lists i bs h k j = elim (Bool-cases (i == j)) [
  | inl e ↦ let e' : i ≡ j = ground arith in rw e (rw (← e') k)
  | inr ne ↦ rw ne (h j)
]

-- A wake and a requeue keep every block in the bucket of its address.
pub futex_wake_requeue-IsHashed :
    (s : State) (addr count : ℕ) (requeue_addr requeue_val : Option ℕ)
    → IsHashed s
    → IsHashed (futex_wake_requeue s addr count requeue_addr requeue_val).state
unfolding futex_wake_requeue
futex_wake_requeue-IsHashed s addr count none val h i =
    ground (arith, h i, wake_loop-none-in addr count false i 0 (s.wait_list i))
futex_wake_requeue-IsHashed s addr count (some target) val h i =
    let bucket = futex_hash addr in
    let r =
      wake_loop-some-in addr count (bucket == futex_hash target) target bucket 0
        (s.wait_list bucket) refl (h bucket) in
    let kept = update-in s.wait_list bucket _ h r.0 in
    elim (Bool-cases (value_changed s addr (some target) val)) [
      | inl e ↦ rw e (h i)
      | inr e ↦ rw e (
          update-in _ (futex_hash target) _ kept
            (all_in-append (futex_hash target) _ _ (kept (futex_hash target)) r.1) i)
    ]
