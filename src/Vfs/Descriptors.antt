-- ===== src/Vfs/Descriptors.antt =====
-- src/syscall/vfs.c: the table of file descriptors and the reference counts of the files behind it.
-- A file is a number, its address. A descriptor is the 32-bit pattern of an `int`, so that a negative
-- one lies behind the table. The table has `length filed` = MAX_FD_COUNT slots.
pub mod Counting
pub mod Slots
pub mod Calls
pub mod Steps
pub mod Tables
mod Tests
use foreign_linux.Base.{
  ℕ, zero, suc, ◌+◌, ◌-◌, ◌*◌, ◌/◌, ◌%◌, Bool, true, false, not, ◌||◌, Option, none, some, List, [],
  ◌∷◌, ltb, leb, ◌==◌, length, get_or, set, if◌then◌else◌,
}

pub record Filed : Type 0 where
  pub fd : Option ℕ
  pub cloexec : Bool

-- `closed` are the files whose `close` operation was called, the last one first.
pub record State : Type 0 where
  pub filed : List Filed
  pub ref : ℕ → ℕ
  pub flags : ℕ → ℕ
  pub closed : List ℕ
  pub umask : ℕ

-- `undefined` is an access outside of the table.
pub data Ret : Type 0 where
  ok : ℕ → Ret
  ebadf emfile einval efault undefined : Ret

abbrev pub empty_slot : Filed
empty_slot = record { fd = none; cloexec = false }

abbrev pub slot : State → ℕ → Filed
slot s fd = get_or s.filed fd empty_slot

abbrev pub in_table : State → ℕ → Bool
in_table s fd = ltb fd (length s.filed)

abbrev pub update {ℓ} : {A : Type ℓ} → (ℕ → A) → ℕ → A → ℕ → A
update f i v j = if i == j then v else f j

abbrev pub count_down : ℕ → ℕ
count_down zero = 4294967295
count_down (suc n) = n

-- The count is a LONG there. It is not wrapped here: the descriptors with the file and the other
-- references to it are its bound, of which a process has far fewer than 2^31.
pub vfs_ref : State → (f : ℕ) → State
vfs_ref s f = record s { ref = update s.ref f (s.ref f + 1) }

pub vfs_release : State → (f : ℕ) → State
vfs_release s f =
    let n = count_down (s.ref f) in
    record s { ref = update s.ref f n; closed = if n == 0 then f ∷ s.closed else s.closed }

abbrev pub reference : State → Option ℕ → Option ℕ × State
unfolding vfs_ref
reference s none = (none, s)
reference s (some f) = (some f, vfs_ref s f)

-- Out of the table the slot reads as an empty one.
pub vfs_get_internal : State → (fd : ℕ) → Option ℕ × State
unfolding vfs_ref
vfs_get_internal s fd = reference s (slot s fd).fd

abbrev pub set_slot : State → ℕ → Filed → State
set_slot s fd v = record s { filed = set s.filed fd v }

-- `f` is the file in the slot.
abbrev pub close_slot : State → (fd f : ℕ) → State
unfolding vfs_release
close_slot s fd f = set_slot (vfs_release s f) fd empty_slot

pub vfs_close : State → (fd : ℕ) → State
unfolding vfs_release
vfs_close s fd = elim (slot s fd).fd [ none ↦ s | some f ↦ close_slot s fd f ]

-- The first slot without a file.
pub free_slot : List Filed → Option ℕ
free_slot [] = none
free_slot (d ∷ ds) = elim d.fd [
  | none ↦ some 0
  | some f ↦ (elim (free_slot ds) [ none ↦ none | some i ↦ some (suc i) ])
]

abbrev pub filed_of : ℕ → Bool → Filed
filed_of f cloexec = record { fd = some f; cloexec = cloexec }

abbrev pub store_at : State → (f : ℕ) (cloexec : Bool) → Option ℕ → State × Ret
store_at s f cloexec none = (s, emfile)
store_at s f cloexec (some i) = (set_slot s i (filed_of f cloexec), ok i)

pub store_file_internal : State → (f : ℕ) → (cloexec : Bool) → State × Ret
unfolding free_slot
store_file_internal s f cloexec = store_at s f cloexec (free_slot s.filed)

abbrev pub is_ok : Ret → Bool
is_ok (ok n) = true
is_ok r = false

-- A file that a call has made, with one reference: stored, or released again.
pub store_new : State → (f : ℕ) → (cloexec : Bool) → State × Ret
unfolding store_file_internal vfs_release
store_new s f cloexec =
    let (s1, r) = store_file_internal (record s { ref = update s.ref f 1 }) f cloexec in
    if is_ok r then (s1, r) else (vfs_release s1 f, r)

-- What `pipe_alloc` gives: two files, or an error.
pub data PipeResult : Type 0 where
  files : (fread fwrite : ℕ) → PipeResult
  error : Ret → PipeResult

-- The second half, with the first file in the slot `rfd`.
abbrev pub store_write_end : State → (rfd fread fwrite : ℕ) → (cloexec : Bool) → State × Ret
unfolding store_file_internal vfs_close vfs_release
store_write_end s rfd fread fwrite cloexec =
    let (s1, r) = store_file_internal s fwrite cloexec in
    if is_ok r then (s1, ok 0) else (vfs_release (vfs_close s1 rfd) fwrite, r)

abbrev pub store_read_end : State × Ret → (fread fwrite : ℕ) → (cloexec : Bool) → State × Ret
unfolding store_write_end vfs_release
store_read_end (s, ok rfd) fread fwrite cloexec = store_write_end s rfd fread fwrite cloexec
store_read_end (s, r) fread fwrite cloexec = (vfs_release (vfs_release s fread) fwrite, r)

-- `refused` is a flag of O_DIRECT and O_NONBLOCK, `writable` the answer of `mm_check_write`.
pub sys_pipe2 : State → (refused writable cloexec : Bool) → (alloc : PipeResult) → State × Ret
unfolding store_read_end
sys_pipe2 s true writable cloexec alloc = (s, einval)
sys_pipe2 s false false cloexec alloc = (s, efault)
sys_pipe2 s false true cloexec (error r) = (s, r)
sys_pipe2 s false true cloexec (files fread fwrite) =
    let s1 = record s { ref = update (update s.ref fread 1) fwrite 1 } in
    store_read_end (store_file_internal s1 fread cloexec) fread fwrite cloexec

-- The file that `eventfd_alloc` or `vfs_openat` gives, or its error, is stored.
pub data FileResult : Type 0 where
  file : ℕ → FileResult
  error : Ret → FileResult

pub store_result : State → (cloexec : Bool) → FileResult → State × Ret
unfolding store_new
store_result s cloexec (file f) = store_new s f cloexec
store_result s cloexec (error r) = (s, r)

pub sys_eventfd2 : State → (cloexec : Bool) → (alloc : FileResult) → State × Ret
unfolding store_result
sys_eventfd2 s cloexec alloc = store_result s cloexec alloc

-- `readable` is the answer of `mm_check_read_string` for the path.
pub sys_openat : State → (readable cloexec : Bool) → (opened : FileResult) → State × Ret
unfolding store_result
sys_openat s readable cloexec opened =
    if readable then store_result s cloexec opened else (s, efault)

abbrev pub minus_one : ℕ
minus_one = 4294967295

-- A free slot for a file that `vfs_get_internal` has referenced.
abbrev pub dup_free : State → (f : ℕ) → (cloexec : Bool) → Option ℕ → State × Ret
unfolding vfs_release
dup_free s f cloexec none = (vfs_release s f, emfile)
dup_free s f cloexec (some i) = (set_slot s i (filed_of f cloexec), ok i)

abbrev pub dup_at : State → (f fd newfd : ℕ) → (cloexec : Bool) → State × Ret
unfolding vfs_release vfs_close
dup_at s f fd newfd cloexec =
    if newfd == fd || not (in_table s newfd)
    then (vfs_release s f, einval)
    else (set_slot (vfs_close s newfd) newfd (filed_of f cloexec), ok newfd)

abbrev pub dup_file : Option ℕ → State → (fd newfd : ℕ) → (cloexec : Bool) → State × Ret
unfolding dup_free dup_at free_slot vfs_ref
dup_file none s fd newfd cloexec = (s, ebadf)
dup_file (some f) s fd newfd cloexec =
    if newfd == minus_one
    then dup_free (vfs_ref s f) f cloexec (free_slot s.filed)
    else dup_at (vfs_ref s f) f fd newfd cloexec

pub vfs_dup : State → (fd newfd : ℕ) → (cloexec : Bool) → State × Ret
unfolding dup_file
vfs_dup s fd newfd cloexec = dup_file (slot s fd).fd s fd newfd cloexec

pub sys_dup : State → (fd : ℕ) → State × Ret
unfolding vfs_dup
sys_dup s fd = vfs_dup s fd minus_one false

pub sys_dup2 : State → (fd newfd : ℕ) → State × Ret
unfolding vfs_dup
sys_dup2 s fd newfd = vfs_dup s fd newfd false

-- There is no test of the range.
pub sys_close : State → (fd : ℕ) → State × Ret
unfolding vfs_release
sys_close s fd =
    if not (in_table s fd)
    then (s, undefined)
    else (elim (slot s fd).fd [ none ↦ (s, ebadf) | some f ↦ (close_slot s fd f, ok 0) ])

-- The loop of `vfs_reset` over the slots from `i` on; `n` slots are left.
pub reset_loop : (n i : ℕ) → State → State
unfolding vfs_close
reset_loop zero i s = s
reset_loop (suc n) i s = reset_loop n (suc i) (if (slot s i).cloexec then vfs_close s i else s)

pub vfs_reset : State → State
unfolding reset_loop
vfs_reset s = record (reset_loop (length s.filed) 0 s) { umask = 18 }

pub shutdown_loop : (n i : ℕ) → State → State
unfolding vfs_close
shutdown_loop zero i s = s
shutdown_loop (suc n) i s = shutdown_loop n (suc i) (vfs_close s i)

pub vfs_shutdown : State → State
unfolding shutdown_loop
vfs_shutdown s = shutdown_loop (length s.filed) 0 s

pub data Command : Type 0 where
  dupfd getfd getfl other : Command
  setfd : (fd_cloexec : Bool) → Command
  setfl : (unsupported nonblock : Bool) → Command

-- `O_NONBLOCK` of the flags of a file.
abbrev pub o_nonblock : ℕ
o_nonblock = 2048

abbrev pub set_nonblock : ℕ → Bool → ℕ
set_nonblock flags nonblock =
    flags - (flags / o_nonblock % 2) * o_nonblock + (if nonblock then o_nonblock else 0)

abbrev pub fcntl_file : State → (fd f : ℕ) → Command → State × Ret
fcntl_file s fd f dupfd = (s, einval)
fcntl_file s fd f getfd = (s, ok (if (slot s fd).cloexec then 1 else 0))
fcntl_file s fd f getfl = (s, ok (s.flags f))
fcntl_file s fd f other = (s, einval)
fcntl_file s fd f (setfd c) = (set_slot s fd (filed_of f c), ok 0)
fcntl_file s fd f (setfl unsupported nonblock) = (
  if unsupported
      then s
      else record s { flags = update s.flags f (set_nonblock (s.flags f) nonblock) },
  ok 0,
)

-- Between `vfs_get` and `vfs_release`, which leave the reference count as it was.
abbrev pub fcntl_on : Option ℕ → State → (fd : ℕ) → Command → State × Ret
unfolding vfs_ref vfs_release
fcntl_on none s fd command = (s, ebadf)
fcntl_on (some f) s fd command =
    let (s1, r) = fcntl_file (vfs_ref s f) fd f command in (vfs_release s1 f, r)

pub fcntl : State → (fd : ℕ) → Command → State × Ret
unfolding fcntl_on vfs_dup
fcntl s fd dupfd = vfs_dup s fd minus_one false
fcntl s fd command = fcntl_on (slot s fd).fd s fd command

pub sys_umask : State → (mask : ℕ) → State × Ret
sys_umask s mask = (record s { umask = mask }, ok s.umask)
