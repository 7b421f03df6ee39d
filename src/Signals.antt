-- ===== src/Signals.antt =====
-- src/syscall/sig.c: the signals of a process: the masks of its threads, what is pending, and the packets
-- for the signal thread. A set of signals is the function that tells its members. The threads are in
-- the order of `thread_list`, and a thread is its position there. The pointers of a call are
-- valid, and the frames of a handler stay on the stack.
pub mod Served
pub mod Steps
pub mod Calls
mod Tests
use foreign_linux.Base.{
  ℕ, zero, suc, ◌+◌, Bool, true, false, ◌&&◌, ◌||◌, not, Option, none, some, List, [], ◌∷◌, ◌++◌,
  ltb, ◌==◌, get_or, set, if◌then◌else◌,
}

abbrev pub Sigset : Type 0
Sigset = ℕ → Bool

abbrev pub nsig : ℕ
nsig = 64

abbrev pub sigaddset : Sigset → ℕ → Sigset
sigaddset s sig i = sig == i || s i

abbrev pub sigdelset : Sigset → ℕ → Sigset
sigdelset s sig i = not (sig == i) && s i

abbrev pub union : Sigset → Sigset → Sigset
union s t i = s i || t i

abbrev pub sigemptyset : Sigset
sigemptyset i = false

pub data Handler : Type 0 where
  sig_dfl sig_ign : Handler
  function : ℕ → Handler

pub record Action : Type 0 where
  pub sa_handler : Handler
  pub sa_mask : Sigset

pub record Siginfo : Type 0 where
  pub si_signo : ℕ
  pub si_code : ℕ

-- `frames` are the saved masks of the handlers that run, the innermost first.
pub record Thread : Type 0 where
  pub sigmask : Sigset
  pub can_accept_signal : Bool
  pub sigevent : Bool
  pub current_siginfo : Siginfo
  pub frames : List Sigset

pub data Packet : Type 0 where
  kill : Siginfo → Packet
  deliver : Packet

-- `exit` is the signal that ended the process. `packets` is the pipe to the signal thread.
pub record State : Type 0 where
  pub actions : ℕ → Action
  pub pending : Sigset
  pub pending_info : ℕ → Siginfo
  pub threads : List Thread
  pub packets : List Packet
  pub exit : Option ℕ

abbrev no_info : Siginfo
no_info = record { si_signo = 0; si_code = 0 }

abbrev pub new_thread : Thread
new_thread = record {
  sigmask = sigemptyset;
  can_accept_signal = true;
  sigevent = false;
  current_siginfo = no_info;
  frames = [];
}

abbrev pub thread_of : State → ℕ → Thread
thread_of s i = get_or s.threads i new_thread

-- SIGHUP, SIGINT, SIGQUIT, SIGILL, SIGABRT, SIGFPE, SIGKILL, SIGSEGV, SIGPIPE, SIGALRM, SIGTERM, SIGUSR1
-- and SIGUSR2 end the process.
abbrev pub is_fatal : ℕ → Bool
is_fatal sig =
    sig == 1
    || sig == 2
    || sig == 3
    || sig == 4
    || sig == 6
    || sig == 8
    || sig == 9
    || sig == 11
    || sig == 13
    || sig == 14
    || sig == 15
    || sig == 10
    || sig == 12

abbrev pub accepts : Thread → (sig : ℕ) → Bool
accepts t sig = not (t.sigmask sig) && t.can_accept_signal

abbrev pub interrupt : Thread → Siginfo → Thread
interrupt t info = record t { can_accept_signal = false; current_siginfo = info; sigevent = true }

-- The loop over the threads; `none` where none can accept the signal.
pub accept_loop : List Thread → Siginfo → Option (List Thread)
accept_loop [] info = none
accept_loop (t ∷ ts) info =
    let rest = accept_loop ts info in
    if accepts t info.si_signo
    then some (interrupt t info ∷ ts)
    else elim rest [ none ↦ none | some us ↦ some (t ∷ us) ]

abbrev pub signal_default_handler : State → Siginfo → State
signal_default_handler s info =
    if is_fatal info.si_signo then record s { exit = some info.si_signo } else s

abbrev pub accepted : State → Option (List Thread) → State × Bool
accepted s none = (s, false)
accepted s (some ts) = (record s { threads = ts }, true)

pub signal_thread_deliver_signal : State → Siginfo → State × Bool
unfolding accept_loop
signal_thread_deliver_signal s info = elim (s.actions info.si_signo).sa_handler [
  | sig_ign ↦ (s, true)
  | sig_dfl ↦ (signal_default_handler s info, true)
  | function f ↦ accepted s (accept_loop s.threads info)
]

abbrev pub mark_pending : State → Siginfo → State
mark_pending s info = record s {
  pending = sigaddset s.pending info.si_signo;
  pending_info = λ i. if info.si_signo == i then info else s.pending_info i;
}

pub signal_thread_handle_kill : State → Siginfo → State
unfolding signal_thread_deliver_signal
signal_thread_handle_kill s info =
    let (t, done) = signal_thread_deliver_signal s info in if done then t else mark_pending t info

abbrev pub clear_pending : (i : ℕ) → State × Bool → State
clear_pending i (s, true) = record s { pending = sigdelset s.pending i }
clear_pending i (s, false) = s

abbrev pub deliver_pending : State → (i : ℕ) → State
unfolding signal_thread_deliver_signal
deliver_pending s i = clear_pending i (signal_thread_deliver_signal s (s.pending_info i))

-- The loop for a DELIVER packet from the signal `i` on; `n` signals are left.
pub deliver_loop : (n i : ℕ) → State → State
unfolding signal_thread_deliver_signal
deliver_loop zero i s = s
deliver_loop (suc n) i s = elim s.exit [
  | some sig ↦ s
  | none ↦ deliver_loop n (suc i) (if s.pending i then deliver_pending s i else s)
]

abbrev pub receive : State → Packet → State
unfolding signal_thread_handle_kill deliver_loop
receive s (kill info) = signal_thread_handle_kill s info
receive s deliver = deliver_loop nsig 0 s

-- A round of `signal_thread`, which ends with the process.
pub signal_thread_round : State → State
unfolding receive
signal_thread_round s = elim s.exit [
  | some sig ↦ s
  | none ↦ (elim s.packets [ [] ↦ s | p ∷ ps ↦ receive (record s { packets = ps }) p ])
]

abbrev pub send_packet : State → Packet → State
send_packet s p = record s { packets = s.packets ++ p ∷ [] }

-- Is a member of `pending` from `i` on not in the mask?
pub any_unmasked : (n i : ℕ) → (pending sigmask : Sigset) → Bool
any_unmasked zero i pending sigmask = false
any_unmasked (suc n) i pending sigmask =
    pending i && not (sigmask i) || any_unmasked n (suc i) pending sigmask

-- For a thread that has the mask `sigmask` now.
pub send_pending_signal : State → (sigmask : Sigset) → State
unfolding any_unmasked
send_pending_signal s sigmask =
    if any_unmasked nsig 0 s.pending sigmask then send_packet s deliver else s

abbrev pub set_thread : State → ℕ → Thread → State
set_thread s i t = record s { threads = set s.threads i t }

-- The mask of the thread `i` changes, and pending signals are sent for.
abbrev pub change_mask : State → (i : ℕ) → Sigset → State
unfolding send_pending_signal
change_mask s i sigmask =
    send_pending_signal (set_thread s i (record (thread_of s i) { sigmask = sigmask })) sigmask

-- The mask of the frame is the one before the handler.
pub signal_setup_handler : State → (i : ℕ) → State
signal_setup_handler s i =
    let t = thread_of s i in
    let sig = t.current_siginfo.si_signo in
    set_thread s i (record t {
      sigmask = union (sigaddset t.sigmask sig) (s.actions sig).sa_mask;
      can_accept_signal = true;
      sigevent = false;
      frames = t.sigmask ∷ t.frames;
    })

abbrev pub return_to : State → (i : ℕ) → List Sigset → State
unfolding change_mask
return_to s i [] = s
return_to s i (oldmask ∷ frames) =
    change_mask (set_thread s i (record (thread_of s i) { frames = frames })) i oldmask

-- Without a frame the call fails.
pub sys_rt_sigreturn : State → (i : ℕ) → State
unfolding return_to
sys_rt_sigreturn s i = return_to s i (thread_of s i).frames

pub data How : Type 0 where
  sig_block sig_unblock sig_setmask : How

abbrev pub new_mask : How → (sigmask set : Sigset) → Sigset
new_mask sig_block sigmask set i = sigmask i || set i
new_mask sig_unblock sigmask set i = sigmask i && not (set i)
new_mask sig_setmask sigmask set i = set i

-- A null pointer is `none`. The result is what `oldset` gets.
pub sys_rt_sigprocmask : State → (i : ℕ) → How → (set : Option Sigset) → State × Sigset
unfolding send_pending_signal
sys_rt_sigprocmask s i how none =
    (send_pending_signal s (thread_of s i).sigmask, (thread_of s i).sigmask)
sys_rt_sigprocmask s i how (some sigs) =
    (change_mask s i (new_mask how (thread_of s i).sigmask sigs), (thread_of s i).sigmask)

-- `*set` has 32 bits, also where it is inverted.
abbrev pub old_new_mask : How → (sigmask set : Sigset) → Sigset
old_new_mask sig_block sigmask set i = sigmask i || ltb i 32 && set i
old_new_mask sig_unblock sigmask set i = sigmask i && (ltb i 32 && not (set i))
old_new_mask sig_setmask sigmask set i = ltb i 32 && set i

abbrev pub low_part : Sigset → Sigset
low_part sigmask i = ltb i 32 && sigmask i

pub sys_sigprocmask : State → (i : ℕ) → How → (set : Option Sigset) → State × Sigset
unfolding send_pending_signal
sys_sigprocmask s i how none =
    (send_pending_signal s (thread_of s i).sigmask, low_part (thread_of s i).sigmask)
sys_sigprocmask s i how (some sigs) = (
  change_mask s i (old_new_mask how (thread_of s i).sigmask sigs),
  low_part (thread_of s i).sigmask,
)

pub signal_before_pwait : State → (i : ℕ) → (sigmask : Sigset) → State × Sigset
unfolding change_mask
signal_before_pwait s i sigmask =
    let t = change_mask s i sigmask in
    (set_thread t i (record (thread_of t i) { sigevent = false }), (thread_of s i).sigmask)

pub signal_after_pwait : State → (i : ℕ) → (oldmask : Sigset) → State
unfolding change_mask
signal_after_pwait s i oldmask = change_mask s i oldmask

-- SIGKILL and SIGSTOP are refused. The result is what `oldact` gets.
pub sys_rt_sigaction : State → (signum : ℕ) → (act : Option Action) → Option (State × Action)
sys_rt_sigaction s signum act =
    if not (ltb signum nsig) || signum == 9 || signum == 19
    then none
    else some (
      (elim act [
        | none ↦ s
        | some a ↦ record s { actions = λ i. if signum == i then a else s.actions i }
      ]),
      s.actions signum,
    )

pub signal_kill : State → (is_self : Bool) → Siginfo → State × Bool
signal_kill s true info = (send_packet s (kill info), true)
signal_kill s false info = (s, false)
