-- ===== src/Futex/Wait.antt =====
-- futex_wait, which sleeps in the middle, and the system call futex of src/syscall/futex.c.
use foreign_linux.Base.{
  ℕ, zero, suc, ◌+◌, ◌-◌, ◌*◌, ◌/◌, ◌%◌, ◌^◌, Bool, false, ◌&&◌, ◌||◌, not, Option, none, some,
  List, [], ◌∷◌, ◌++◌, bit_and, ◌==◌, if◌then◌else◌,
}
use foreign_linux.Futex.{
  Block, State, Ret, ok, eintr, etimedout, eacces, efault, enosys, Outcome, futex_hash, update,
  is_some, futex_wake, futex_requeue,
}

-- Up to the sleep: `some` is the state in which the thread goes to sleep, `none` the return of 0.
unfoldable pub wait_begin : State → (thread addr val : ℕ) → Option State
wait_begin s thread addr val =
    if not (s.mem addr == val)
    then none
    else some (record s {
      wait_list =
          update s.wait_list (futex_hash addr)
            (s.wait_list (futex_hash addr) ++ (record { thread = thread; addr = addr } ∷ []));
    })

-- How `signal_wait` returns; a signalled wait has taken the auto-reset event.
pub data WaitResult : Type 0 where
  object_0 interrupted timeout : WaitResult

-- `list_remove` of the wait block of a thread from the list that holds it.
unfoldable pub remove_block : ℕ → List Block → List Block
remove_block thread [] = []
remove_block thread (b ∷ bs) =
    let rest = remove_block thread bs in if b.thread == thread then bs else b ∷ rest

abbrev pub holds : ℕ → List Block → Bool
holds thread [] = false
holds thread (b ∷ bs) = b.thread == thread || holds thread bs

abbrev pub failure : WaitResult → Ret
failure object_0 = ok 0
failure interrupted = eintr
failure timeout = etimedout

-- The bucket below `n` whose list holds the wait block of a thread, also after a requeue.
unfoldable pub bucket_of : (thread n : ℕ) → (ℕ → List Block) → Option ℕ
bucket_of thread zero lists = none
bucket_of thread (suc n) lists =
    let rest = bucket_of thread n lists in if holds thread (lists n) then some n else rest

abbrev pub is_first : ℕ → List Block → Bool
is_first thread [] = false
is_first thread (b ∷ bs) = b.thread == thread

abbrev pub is_last : ℕ → List Block → Bool
is_last thread [] = false
is_last thread (b ∷ []) = b.thread == thread
is_last thread (b ∷ c ∷ bs) = is_last thread (c ∷ bs)

-- `list_remove` of the block of a thread, called for the list of `bucket` while the list of `there`
-- holds it. The block is unlinked from its neighbours; only the ends of the list of `bucket` are
-- moved. `none`: an end of another list still points to the block of the thread that returns.
unfoldable pub unlink_block : State → (thread bucket there : ℕ) → Option State
unfolding remove_block
unlink_block s thread bucket there =
    if not (bucket == there)
      && (is_first thread (s.wait_list there) || is_last thread (s.wait_list there))
    then none
    else some (record s {
      wait_list = update s.wait_list there (remove_block thread (s.wait_list there));
    })

-- Behind an unsuccessful sleep: `WaitForSingleObject` with no time takes the event if it is set.
-- `none` is also a block that no list holds, which does not come about while the thread sleeps.
unfoldable pub give_up_wait : State → (thread addr : ℕ) → Option State
unfolding unlink_block bucket_of
give_up_wait s thread addr =
    if s.wait_event thread
    then some (record s { wait_event = update s.wait_event thread false })
    else elim (bucket_of thread 256 s.wait_list) [
      | none ↦ none
      | some there ↦ unlink_block s thread (futex_hash addr) there
    ]

abbrev pub with_ret : Ret → Option State → Option (State × Ret)
with_ret r none = none
with_ret r (some s) = some (s, r)

-- From the return of `signal_wait` on.
unfoldable pub wait_end : State → (thread addr : ℕ) → WaitResult → Option (State × Ret)
unfolding give_up_wait
wait_end s thread addr object_0 =
    some (record s { wait_event = update s.wait_event thread false }, ok 0)
wait_end s thread addr result = with_ret (failure result) (give_up_wait s thread addr)

-- What the system call comes to: a wait with a time in milliseconds, or a return.
pub data Call : Type 0 where
  waits : (addr val time : ℕ) → Call
  returns : Ret → Call
  changes : Outcome → Call

pub record Timespec : Type 0 where
  pub tv_sec : ℕ
  pub tv_nsec : ℕ

abbrev pub infinite : ℕ
infinite = 0xffff_ffff

-- FUTEX_CMD_MASK
abbrev pub cmd_mask : ℕ
cmd_mask = 2 ^ 32 - 1 - (128 + 256)

-- The time of the wait, a `DWORD`.
pub milliseconds : Option Timespec → ℕ
milliseconds none = infinite
milliseconds (some t) = (t.tv_sec * 1000 + t.tv_nsec / 1000000) % 2 ^ 32

-- `readable` is `mm_check_read` of an `int` at an address, and `timeout_readable` that of the
-- time structure.
pub sys_futex :
    State
    → (readable : ℕ → Bool) (timeout_readable : Bool) (uaddr op val : ℕ) (timeout : Option Timespec)
    → (uaddr2 val3 : ℕ) → Call
unfolding milliseconds
sys_futex s readable timeout_readable uaddr op val span uaddr2 val3 =
    if not (readable uaddr)
    then returns eacces
    else if bit_and op cmd_mask == 0
    then (if is_some span && not timeout_readable
        then returns efault
        else waits uaddr val (milliseconds span))
    else if bit_and op cmd_mask == 1
    then changes (futex_wake s uaddr val)
    else if bit_and op cmd_mask == 3
    then (if not (readable uaddr2)
        then returns eacces
        else changes (futex_requeue s uaddr val uaddr2 none))
    else if bit_and op cmd_mask == 4
    then (if not (readable uaddr2)
        then returns eacces
        else changes (futex_requeue s uaddr val uaddr2 (some val3)))
    else returns enosys
