-- ===== src/Signals/Tests.antt =====
-- src/syscall/sig.c with one thread, which blocks the signal 10, which is pending.
use foreign_linux.Base.{ℕ, zero, suc, ◌≡◌, ◌<◌, true, false, none, some, [], ◌∷◌, arith, ◌==◌, inr}
use foreign_linux.Signals.{
  accepts, Sigset, Siginfo, Thread, State, function, sig_unblock, sigemptyset, thread_of,
  signal_setup_handler, signal_thread_round, sys_rt_sigreturn, sys_rt_sigprocmask,
}
use foreign_linux.Signals.Served.{IsServed}
use foreign_linux.Signals.Steps.{here, next, masks, rounds, Reach-IsServed}
use foreign_linux.Signals.Calls.{sys_rt_sigreturn-signal_setup_handler}

abbrev only : ℕ → Sigset
only sig i = sig == i

abbrev info_10 : Siginfo
info_10 = record { si_signo = 10; si_code = 0 }

abbrev blocking : Thread
blocking = record {
  sigmask = only 10;
  can_accept_signal = true;
  sigevent = false;
  current_siginfo = info_10;
  frames = [];
}

abbrev start : State
start = record {
  actions = λ i. record { sa_handler = function 1; sa_mask = sigemptyset };
  pending = only 10;
  pending_info = λ i. info_10;
  threads = blocking ∷ [];
  packets = [];
  exit = none;
}

start-IsServed : IsServed start
start-IsServed = record {
  informed = λ sig p. ground (arith, p);
  served = inr (inr (λ j sig h k w. quiet j sig h w.1 w.2));
}
  where
    quiet : (j sig : ℕ) → j < 1 → only 10 sig ≡ true → ¬ (accepts (thread_of start j) sig ≡ true)
    quiet zero sig h p = λ w. ground (arith, p, w)
    quiet (suc j) sig h p = absurd (omega arith)

abbrev unblocked : State
unblocked = (sys_rt_sigprocmask start 0 sig_unblock (some (only 10))).0

abbrev finish : State
finish = signal_thread_round unblocked

Reach-IsServed_example : IsServed finish
Reach-IsServed_example =
    Reach-IsServed {s = start} {t = finish}
      (next (next here (masks 0 sig_unblock (only 10))) rounds) start-IsServed

sys_rt_sigreturn-signal_setup_handler_example :
    ((thread_of (signal_setup_handler start 0) 0).sigmask 10 ≡ true)
    × ((j : ℕ) → false ≡ true → (thread_of (signal_setup_handler start 0) 0).sigmask j ≡ true)
    × ((thread_of (sys_rt_sigreturn (signal_setup_handler start 0) 0) 0).sigmask ≡ only 10)
    × ((thread_of (sys_rt_sigreturn (signal_setup_handler start 0) 0) 0).frames ≡ [])
sys_rt_sigreturn-signal_setup_handler_example =
    sys_rt_sigreturn-signal_setup_handler start 0 (omega arith)
