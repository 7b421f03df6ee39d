-- ===== src/Futex/System/Reach.antt =====
-- Every order of calls of the threads of a process, as steps between states.
use foreign_linux.Base.{
  ℕ, ◌+◌, ◌≤◌, ◌≡◌, ◌∙◌, true, Option, none, some, arith, ◌==◌, if◌then◌else◌, Bool-cases, inl, inr,
}
use foreign_linux.Futex.{State, Ret, futex_wake_requeue, update, is_some}
use foreign_linux.Futex.Wait.{wait_begin, WaitResult, object_0, wait_end}
use foreign_linux.Futex.Tickets.{tickets, futex_wake_requeue-tickets}
use foreign_linux.Futex.System.{wait_begin-tickets, wait_end-tickets}

-- The shared state, and for each thread the address on which it sleeps in `futex_wait`.
pub record System : Type 0 where
  pub state : State
  pub sleeps : ℕ → Option ℕ

-- One step. A sleep ends by a signalled event only where the event is set. It ends otherwise at any
-- time, also after a requeue to another bucket, where the code has a state to go on from: not where
-- the block is the first or the last of the list of another bucket, which then keeps a pointer to it.
pub data Step (y : System) : System → Type 0 where
  sleep :
      (thread addr val : ℕ) (s : State)
      → y.sleeps thread ≡ none
      → wait_begin y.state thread addr val ≡ some s
      → Step y (record { state = s; sleeps = update y.sleeps thread (some addr) })
  wake :
      (addr count : ℕ) (requeue_addr requeue_val : Option ℕ)
      → Step y (record y {
        state = (futex_wake_requeue y.state addr count requeue_addr requeue_val).state;
      })
  finish :
      (thread addr : ℕ) (result : WaitResult) (s : State) (r : Ret)
      → y.sleeps thread ≡ some addr
      → (result ≡ object_0 → y.state.wait_event thread ≡ true)
      → wait_end y.state thread addr result ≡ some (s, r)
      → Step y (record { state = s; sleeps = update y.sleeps thread none })
  store : (mem : ℕ → ℕ) → Step y (record y { state = record (y.state) { mem = mem } })

pub data Reach (x : System) : System → Type 0 where
  here : Reach x x
  next : {y z : System} → Reach x y → Step y z → Reach x z

-- A thread has a ticket exactly while it sleeps.
abbrev pub IsTicketed : System → Type 0
IsTicketed y = (t : ℕ) → tickets t y.state ≡ (if is_some (y.sleeps t) then 1 else 0)

asleep-one :
    (sleeps : ℕ → Option ℕ) (thread addr t : ℕ)
    → sleeps thread ≡ none
    → (if is_some (sleeps t) then 1 else 0) + (if thread == t then 1 else 0)
      ≡ (if is_some (update sleeps thread (some addr) t) then 1 else 0)
asleep-one sleeps thread addr t h = elim (Bool-cases (thread == t)) [
  | inl e ↦ let e' : thread ≡ t = ground arith in rw (← e', h) (ground arith)
  | inr ne ↦ rw ne (ground arith)
]

awake-one :
    (sleeps : ℕ → Option ℕ) (thread addr t : ℕ)
    → sleeps thread ≡ some addr
    → (if is_some (sleeps t) then 1 else 0)
      ≡ (if is_some (update sleeps thread none t) then 1 else 0) + (if thread == t then 1 else 0)
awake-one sleeps thread addr t h = elim (Bool-cases (thread == t)) [
  | inl e ↦ let e' : thread ≡ t = ground arith in rw (← e', h) (ground arith)
  | inr ne ↦ rw ne (ground arith)
]

at_most : (o : Option ℕ) → (if is_some o then 1 else 0) ≤ 1
at_most none = omega arith
at_most (some a) = omega arith

pub Step-IsTicketed : {y z : System} → Step y z → IsTicketed y → IsTicketed z
Step-IsTicketed {y} (sleep thread addr val s h e) v t =
    wait_begin-tickets y.state s thread addr val e t
    ∙ omega (arith, v t, asleep-one y.sleeps thread addr t h)
Step-IsTicketed {y} (wake addr count ra rv) v t =
    futex_wake_requeue-tickets y.state addr count ra rv
      (λ u. omega (arith, v u, at_most (y.sleeps u))) t
    ∙ v t
Step-IsTicketed {y} (finish thread addr result s r h o e) v t = omega (
  arith,
  wait_end-tickets y.state thread addr result s r o e t,
  v t,
  awake-one y.sleeps thread addr t h,
)
Step-IsTicketed (store mem) v t = v t

pub Reach-IsTicketed : {x y : System} → IsTicketed x → Reach x y → IsTicketed y
Reach-IsTicketed v here = v
Reach-IsTicketed v (next r st) = Step-IsTicketed st (Reach-IsTicketed v r)
