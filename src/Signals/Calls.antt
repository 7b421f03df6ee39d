-- ===== src/Signals/Calls.antt =====
-- src/syscall/sig.c: the masks that handlers and calls leave.
use foreign_linux.Base.{
  ℕ, ◌≤◌, ◌<◌, ◌≡◌, refl, ap, ◌∙◌, Bool, true, false, ◌||◌, some, List, ◌∷◌, arith, ◌==◌, length,
  get_or, length-set, get_or-set_self, if◌then◌else◌,
}
use foreign_linux.Signals.{
  Sigset, nsig, Thread, deliver, State, sig_unblock, sig_setmask, thread_of, new_thread,
  send_packet, any_unmasked, send_pending_signal, set_thread, change_mask, signal_setup_handler,
  return_to, sys_rt_sigreturn, sys_sigprocmask, old_new_mask, sigaddset, union,
}

threads-send : (s : State) (m : Sigset) → (send_pending_signal s m).threads ≡ s.threads
unfolding send_pending_signal
threads-send s m = go (any_unmasked nsig 0 s.pending m)
  where
    go : (b : Bool) → (if b then send_packet s deliver else s).threads ≡ s.threads
    go true = refl
    go false = refl

module _ (s : State) (i : ℕ) (h : i < length s.threads) where
  thread_of-set_thread : (t : Thread) → thread_of (set_thread s i t) i ≡ t
  thread_of-set_thread t = get_or-set_self s.threads i t new_thread h

  thread_of-change_mask :
      (m : Sigset) → thread_of (change_mask s i m) i ≡ record (thread_of s i) { sigmask = m }
  unfolding change_mask
  thread_of-change_mask m =
      let t : Thread = record (thread_of s i) { sigmask = m } in
      ap (λ ts. get_or ts i new_thread) (threads-send (set_thread s i t) m) ∙ thread_of-set_thread t

has_signal : (a b c : Bool) → a ≡ true → ((a || b) || c) ≡ true
has_signal a b c e = ground (arith, e)

left_handler :
    (s : State) (i : ℕ)
    → i < length s.threads
    → (m : Sigset) (fs : List Sigset) → (thread_of s i).frames ≡ m ∷ fs
    → thread_of (sys_rt_sigreturn s i) i ≡ record (thread_of s i) { sigmask = m; frames = fs }
unfolding sys_rt_sigreturn return_to
left_handler s i h m fs e =
    let t : Thread = record (thread_of s i) { frames = fs } in
    let l : i < length (set_thread s i t).threads = omega (arith, h, length-set s.threads i t) in
    rw (e, sys_rt_sigreturn)
      (thread_of-change_mask (set_thread s i t) i l m
        ∙ ap {A = Thread} (λ x. record x { sigmask = m }) (thread_of-set_thread s i h t))

-- For a thread of the process, the handler runs with the signal and the mask of its action blocked,
-- and rt_sigreturn at its end gives the thread the mask and the frames that it had before.
pub sys_rt_sigreturn-signal_setup_handler :
    (s : State) (i : ℕ)
    → i < length s.threads
    → let t = signal_setup_handler s i in
      let sig = (thread_of s i).current_siginfo.si_signo in
      ((thread_of t i).sigmask sig ≡ true)
      × ((j : ℕ) → (s.actions sig).sa_mask j ≡ true → (thread_of t i).sigmask j ≡ true)
      × ((thread_of (sys_rt_sigreturn t i) i).sigmask ≡ (thread_of s i).sigmask)
      × ((thread_of (sys_rt_sigreturn t i) i).frames ≡ (thread_of s i).frames)
unfolding signal_setup_handler
sys_rt_sigreturn-signal_setup_handler s i h =
    let old : Thread = thread_of s i in
    let sig : ℕ = old.current_siginfo.si_signo in
    let new : Thread = record old {
      sigmask = union (sigaddset old.sigmask sig) (s.actions sig).sa_mask;
      can_accept_signal = true;
      sigevent = false;
      frames = old.sigmask ∷ old.frames;
    } in
    let t : State = set_thread s i new in
    let l : i < length t.threads = omega (arith, h, length-set s.threads i new) in
    let n : thread_of t i ≡ new = thread_of-set_thread s i h new in
    let r = left_handler t i l old.sigmask old.frames (ap (λ x. x.frames) n) in
    (
      ap (λ x. x.sigmask sig) n
          ∙ has_signal (sig == sig) (old.sigmask sig) ((s.actions sig).sa_mask sig) (ground arith),
      λ j e. ap (λ x. x.sigmask j) n ∙ ground (arith, e),
      ap (λ x. x.sigmask) r,
      ap (λ x. x.frames) r,
    )

-- The call of old programs: SIG_UNBLOCK and SIG_SETMASK unblock each signal from 32 on in the mask of
-- the thread, whatever the set.
pub sys_sigprocmask_unblocks :
    (s : State) (i : ℕ) (sigs : Sigset) (sig : ℕ)
    → i < length s.threads
    → 32 ≤ sig
    → ((thread_of (sys_sigprocmask s i sig_unblock (some sigs)).0 i).sigmask sig ≡ false)
      × ((thread_of (sys_sigprocmask s i sig_setmask (some sigs)).0 i).sigmask sig ≡ false)
unfolding sys_sigprocmask
sys_sigprocmask_unblocks s i sigs sig h k = (
  ap (λ t. t.sigmask sig)
        (thread_of-change_mask s i h (old_new_mask sig_unblock (thread_of s i).sigmask sigs))
      ∙ ground (arith, k),
  ap (λ t. t.sigmask sig)
        (thread_of-change_mask s i h (old_new_mask sig_setmask (thread_of s i).sigmask sigs))
      ∙ ground (arith, k),
)
