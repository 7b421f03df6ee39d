-- ===== src/Futex/System.antt =====
-- Threads that wait, wake and requeue in any order: no thread that sleeps is forgotten.
pub mod Reach
use foreign_linux.Base.{
  ℕ, zero, suc, ◌+◌, ◌-◌, ◌%◌, ◌≤◌, ◌<◌, ◌≡◌, ◌≢◌, ◌⊎◌, refl, ◌∙◌, Bool, true, false, ◌||◌, ◌&&◌,
  not, Option, none, some, List, [], ◌∷◌, ◌++◌, arith, ltb, ◌==◌, if◌then◌else◌, Bool-cases,
  Option-cases, inl, inr,
}
use foreign_linux.Futex.{
  Block, State, Ret, ok, Outcome, futex_wake_requeue, futex_hash, update, is_some,
}
use foreign_linux.Futex.Wait.{
  wait_begin, WaitResult, object_0, interrupted, timeout, remove_block, holds, bucket_of,
  unlink_block, is_first, is_last, give_up_wait, with_ret, wait_end,
}
use foreign_linux.Futex.Tickets.{
  blocks, queued, tickets, AtMostOne, blocks-append, queued-update, queued-ge,
  futex_wake_requeue-tickets,
}

blocks-remove_block :
    (t u : ℕ) (bs : List Block)
    → 1 ≤ blocks u bs
    → blocks t (remove_block u bs) + (if u == t then 1 else 0) ≡ blocks t bs
unfolding blocks remove_block
blocks-remove_block t u [] h = absurd (omega arith)
blocks-remove_block t u (b ∷ bs) h = ground (arith, blocks-remove_block t u bs)

-- The state in which a thread sleeps.
abbrev asleep : State → (thread addr : ℕ) → State
asleep s thread addr = record s {
  wait_list =
      update s.wait_list (futex_hash addr)
        (s.wait_list (futex_hash addr) ++ (record { thread = thread; addr = addr } ∷ []));
}

wait_begin_lem :
    (s s' : State) (thread addr val : ℕ)
    → wait_begin s thread addr val ≡ some s'
    → asleep s thread addr ≡ s'
unfolding wait_begin
wait_begin_lem s s' thread addr val e = ground arith

asleep-tickets :
    (s : State) (thread addr t : ℕ)
    → tickets t (asleep s thread addr) ≡ tickets t s + (if thread == t then 1 else 0)
unfolding blocks
asleep-tickets s thread addr t =
    let bs = s.wait_list (futex_hash addr) in
    let b : List Block = record { thread = thread; addr = addr } ∷ [] in
    omega (
      arith,
      queued-update t 256 s.wait_list (futex_hash addr) (bs ++ b) (omega arith),
      blocks-append t bs b,
    )

-- Going to sleep gives the thread one ticket.
pub wait_begin-tickets :
    (s s' : State) (thread addr val : ℕ)
    → wait_begin s thread addr val ≡ some s'
    → (t : ℕ) → tickets t s' ≡ tickets t s + (if thread == t then 1 else 0)
wait_begin-tickets s s' thread addr val e t =
    rw (← wait_begin_lem s s' thread addr val e) (asleep-tickets s thread addr t)

taken-tickets :
    (s : State) (thread t : ℕ)
    → s.wait_event thread ≡ true
    → queued t 256 s.wait_list
        + (if update s.wait_event thread false t then 1 else 0)
        + (if thread == t then 1 else 0)
      ≡ tickets t s
taken-tickets s thread t h = elim (Bool-cases (thread == t)) [
  | inl e ↦ let e' : thread ≡ t = ground arith in rw (← e', h) (ground arith)
  | inr ne ↦ rw ne (omega arith)
]

-- The block leaves the list that holds it.
removed-tickets :
    (s : State) (thread there t : ℕ)
    → there < 256
    → 1 ≤ blocks thread (s.wait_list there)
    → queued t 256 (update s.wait_list there (remove_block thread (s.wait_list there)))
        + (if s.wait_event t then 1 else 0)
        + (if thread == t then 1 else 0)
      ≡ tickets t s
removed-tickets s thread there t b h =
    let bs = s.wait_list there in
    omega (
      arith,
      queued-update t 256 s.wait_list there (remove_block thread bs) b,
      blocks-remove_block t thread bs h,
    )

blocks-holds : (thread : ℕ) (bs : List Block) → holds thread bs ≡ true → 1 ≤ blocks thread bs
unfolding blocks
blocks-holds thread [] e = ground arith
blocks-holds thread (b ∷ bs) e = ground (arith, blocks-holds thread bs)

bucket_of_lem :
    (thread n : ℕ) (lists : ℕ → List Block) (there : ℕ)
    → bucket_of thread n lists ≡ some there
    → (there < n) × (1 ≤ blocks thread (lists there))
unfolding bucket_of
bucket_of_lem thread zero lists there e = ground arith
bucket_of_lem thread (suc n) lists there e = elim (Bool-cases (holds thread (lists n))) [
  | inl h ↦
      let f : n ≡ there = ground (arith, h, e) in
      rw (← f) (omega arith, blocks-holds thread (lists n) h)
  | inr h ↦
      let (l, b) = bucket_of_lem thread n lists there (ground (arith, h, e)) in
      (omega (arith, l), b)
]

-- A state that a call leaves, if it leaves one: the thread has given one ticket back.
abbrev Left : State → ℕ → Option State → Type 0
Left s thread none = Unit {0}
Left s thread (some s') = (t : ℕ) → tickets t s' + (if thread == t then 1 else 0) ≡ tickets t s

unlink_block-Left :
    (s : State) (thread bucket there : ℕ)
    → there < 256
    → 1 ≤ blocks thread (s.wait_list there)
    → Left s thread (unlink_block s thread bucket there)
unfolding unlink_block
unlink_block-Left s thread bucket there b h = unlinked (
    not (bucket == there)
    && (is_first thread (s.wait_list there) || is_last thread (s.wait_list there)))
  where
    unlinked :
        (dangling : Bool)
        → Left s thread (
            if dangling
            then none
            else some (record s {
              wait_list = update s.wait_list there (remove_block thread (s.wait_list there));
            }))
    unlinked true = tt
    unlinked false = λ t. removed-tickets s thread there t b h

give_up_wait-Left : (s : State) (thread addr : ℕ) → Left s thread (give_up_wait s thread addr)
unfolding give_up_wait
give_up_wait-Left s thread addr = elim (Bool-cases (s.wait_event thread)) [
  | inl e ↦ rw (e, give_up_wait) (λ t. taken-tickets s thread t e)
  | inr ne ↦ elim (Option-cases (bucket_of thread 256 s.wait_list)) [
    | inl f ↦ rw (ne, give_up_wait, f) tt
    | inr (there, f) ↦
        let (l, b) = bucket_of_lem thread 256 s.wait_list there f in
        rw (ne, give_up_wait, f) (unlink_block-Left s thread (futex_hash addr) there l b)
  ]
]

-- The state of a returning call.
abbrev LeftBy : State → ℕ → Option (State × Ret) → Type 0
LeftBy s thread none = Unit {0}
LeftBy s thread (some (s', r)) =
    (t : ℕ) → tickets t s' + (if thread == t then 1 else 0) ≡ tickets t s

LeftBy-with_ret :
    (s : State) (thread : ℕ) (r : Ret) (o : Option State)
    → Left s thread o
    → LeftBy s thread (with_ret r o)
LeftBy-with_ret s thread r none l = tt
LeftBy-with_ret s thread r (some s') l = l

wait_end-LeftBy :
    (s : State) (thread addr : ℕ) (result : WaitResult)
    → (result ≡ object_0 → s.wait_event thread ≡ true)
    → LeftBy s thread (wait_end s thread addr result)
unfolding wait_end
wait_end-LeftBy s thread addr object_0 o = λ t. taken-tickets s thread t (o refl)
wait_end-LeftBy s thread addr interrupted o =
    LeftBy-with_ret s thread _ (give_up_wait s thread addr) (give_up_wait-Left s thread addr)
wait_end-LeftBy s thread addr timeout o =
    LeftBy-with_ret s thread _ (give_up_wait s thread addr) (give_up_wait-Left s thread addr)

-- Waking up takes a ticket: the thread's event where it is set, or else its block from the list that
-- holds it, also after a requeue.
pub wait_end-tickets :
    (s : State) (thread addr : ℕ) (result : WaitResult) (s' : State) (r : Ret)
    → (result ≡ object_0 → s.wait_event thread ≡ true)
    → wait_end s thread addr result ≡ some (s', r)
    → (t : ℕ) → tickets t s' + (if thread == t then 1 else 0) ≡ tickets t s
wait_end-tickets s thread addr result s' r o e = rw e at (wait_end-LeftBy s thread addr result o)
