-- ===== src/Signals/Steps.antt =====
-- src/syscall/sig.c: the signal thread, the handlers and the calls in any order.
use foreign_linux.Base.{
  ℕ, ◌<◌, ◌≡◌, ◌≢◌, ◌⊎◌, refl, sym, Bool, true, false, none, some, List, [], ◌∷◌, ◌++◌, arith, ◌==◌,
  length, length-set, get_or-set_self, get_or-set_ne, if◌then◌else◌, Bool-cases, Option-cases, inl,
  inr,
}
use foreign_linux.Signals.{
  Sigset, nsig, Siginfo, Thread, Packet, kill, deliver, State, How, thread_of, new_thread, accepts,
  signal_thread_deliver_signal, mark_pending, signal_thread_handle_kill, deliver_loop, receive,
  signal_thread_round, send_packet, any_unmasked, send_pending_signal, set_thread, change_mask,
  signal_setup_handler, return_to, sys_rt_sigreturn, sys_rt_sigprocmask, signal_before_pwait,
  signal_after_pwait, signal_kill, new_mask, sigaddset,
}
use foreign_linux.Signals.Served.{
  has_deliver, Waits, QuietBut, Quiet, IsInformed, IsServed, IsDelivered, deliver-IsDelivered,
  Quiet-Fewer, Settled-Quiet, deliver_loop-Settled, any_unmasked-false,
}

abbrev Served : State → Type 0
Served s = (s.exit ≢ none) ⊎ (has_deliver s.packets ≡ true) ⊎ Quiet s

has_deliver-append : (ps : List Packet) → has_deliver (ps ++ deliver ∷ []) ≡ true
has_deliver-append [] = refl
has_deliver-append (deliver ∷ ps) = refl
has_deliver-append (kill info ∷ ps) = has_deliver-append ps

has_deliver-behind :
    (ps : List Packet) (p : Packet) → has_deliver ps ≡ true → has_deliver (ps ++ p ∷ []) ≡ true
has_deliver-behind [] p e = ground arith
has_deliver-behind (deliver ∷ ps) p e = refl
has_deliver-behind (kill info ∷ ps) p e = has_deliver-behind ps p e

module _ (s : State) (i : ℕ) (t : Thread) where
  -- A thread that takes no pending signal takes the place of any thread.
  set_thread-Quiet :
      QuietBut i s
      → ((sig : ℕ) → i < length s.threads → sig < nsig → ¬ Waits s.pending t sig)
      → Quiet (set_thread s i t)
  set_thread-Quiet q n j sig h k w = elim (Bool-cases (i == j)) [
    | inl e ↦
        let f : i ≡ j = ground (arith, e) in
        let l : i < length s.threads = omega (arith, h, f, length-set s.threads i t) in
        n sig l k (rw (get_or-set_self s.threads i t new_thread l) at (rw (sym f) at w))
    | inr e ↦
        let f : i ≢ j = ground (arith, e) in
        let g : j ≢ i = ground (arith, e) in
        q j sig g (omega (arith, h, length-set s.threads i t)) k
          (rw (get_or-set_ne s.threads i j t new_thread f) at w)
  ]

  sent :
      (b : Bool)
      → IsInformed s
      → (s.exit ≢ none) ⊎ (has_deliver s.packets ≡ true) ⊎ QuietBut i s
      → (b ≡ false → (sig : ℕ) → sig < nsig → ¬ Waits s.pending t sig)
      → IsServed (if b then send_packet (set_thread s i t) deliver else set_thread s i t)
  sent true n v w = record { informed = n; served = inr (inl (has_deliver-append s.packets)) }
  sent false n (inl e) w = record { informed = n; served = inl e }
  sent false n (inr (inl e)) w = record { informed = n; served = inr (inl e) }
  sent false n (inr (inr q)) w = record {
    informed = n;
    served = inr (inr (set_thread-Quiet q (λ sig l. w refl sig)));
  }

  send-IsServed :
      IsInformed s
      → (s.exit ≢ none) ⊎ (has_deliver s.packets ≡ true) ⊎ QuietBut i s
      → IsServed (send_pending_signal (set_thread s i t) t.sigmask)
  unfolding send_pending_signal
  send-IsServed n v = sent (any_unmasked nsig 0 s.pending t.sigmask) n v (λ e sig h w.
      let m : t.sigmask sig ≡ true =
        any_unmasked-false nsig 0 s.pending t.sigmask e sig (omega arith) (omega (arith, h)) w.1 in
      ground (arith, m, w.2))

but :
    (s : State) (i : ℕ)
    → IsServed s
    → (s.exit ≢ none) ⊎ (has_deliver s.packets ≡ true) ⊎ QuietBut i s
but s i v = elim v.served [
  | inl e ↦ inl e
  | inr (inl e) ↦ inr (inl e)
  | inr (inr q) ↦ inr (inr (λ j sig n h. q j sig h))
]

change_mask-IsServed :
    (s : State) (i : ℕ) (sigmask : Sigset) → IsServed s → IsServed (change_mask s i sigmask)
unfolding change_mask send_pending_signal
change_mask-IsServed s i sigmask v =
    send-IsServed s i (record (thread_of s i) { sigmask = sigmask }) v.informed (but s i v)

-- A thread that only loses a frame.
popped :
    (s : State) (i : ℕ) (t : Thread)
    → IsServed s
    → (s.exit ≢ none) ⊎ (has_deliver s.packets ≡ true) ⊎ QuietBut i (set_thread s i t)
popped s i t v = elim v.served [
  | inl e ↦ inl e
  | inr (inl e) ↦ inr (inl e)
  | inr (inr q) ↦ inr (
      inr (λ j sig n h k w.
        let f : i ≢ j = λ e. n (sym e) in
        q j sig (omega (arith, h, length-set s.threads i t)) k
          (rw (get_or-set_ne s.threads i j t new_thread f) at w)))
]

sigreturn-IsServed : (s : State) (i : ℕ) → IsServed s → IsServed (sys_rt_sigreturn s i)
unfolding sys_rt_sigreturn
sigreturn-IsServed s i v = go (thread_of s i).frames
  where
    go : (frames : List Sigset) → IsServed (return_to s i frames)
    go [] = v
    go (m ∷ fs) =
        let t : Thread = record (thread_of s i) { frames = fs } in
        let u : State = set_thread s i t in
        send-IsServed u i (record (thread_of u i) { sigmask = m }) v.informed (popped s i t v)

setup-IsServed : (s : State) (i : ℕ) → IsServed s → IsServed (signal_setup_handler s i)
unfolding signal_setup_handler
setup-IsServed s i v = record {
  informed = v.informed;
  served = (elim (but s i v) [
    | inl e ↦ inl e
    | inr (inl e) ↦ inr (inl e)
    | inr (inr q) ↦ inr (inr (set_thread-Quiet s i _ q (λ sig l h w. ground (arith, w.0))))
  ]);
}

-- The mark for a signal that no thread takes.
marked :
    (s : State) (info : Siginfo) (r : State × Bool)
    → s.exit ≡ none
    → IsServed s
    → IsDelivered s info.si_signo r
    → IsServed (if r.1 then r.0 else mark_pending r.0 info)
marked s info (t, true) e v d = record {
  informed = λ sig p. rw d.same_info (v.informed sig (rw d.same_pending at p));
  served = (elim v.served [
    | inl f ↦ absurd (f e)
    | inr (inl f) ↦ inr (inl (rw d.same_packets f))
    | inr (inr q) ↦ inr (inr (Quiet-Fewer s t d.fewer (λ sig p. rw d.same_pending at p) q))
  ]);
}
marked s info (t, false) e v d = record {
  informed = λ sig p. elim (Bool-cases (info.si_signo == sig)) [
    | inl f ↦ rw f (ground (arith, f))
    | inr f ↦ rw f (rw d.same_info (v.informed sig (rw d.same_pending at (old sig p f))))
  ];
  served = (elim v.served [
    | inl f ↦ absurd (f e)
    | inr (inl f) ↦ inr (inl (rw d.same_packets f))
    | inr (inr q) ↦
        let (g, r) = d.refused refl in
        inr (
          inr (λ j sig h k w.
            let l : j < length s.threads = omega (arith, h, d.fewer.0) in
            elim (Bool-cases (info.si_signo == sig)) [
              | inl f ↦
                  let m : info.si_signo ≡ sig = ground (arith, f) in
                  let x : accepts (thread_of s j) sig ≡ false = rw m at (r j l) in
                  ground (arith, x, (rw g at w.2))
              | inr f ↦ q j sig l k (rw g at w.0, rw d.same_pending at (old sig w.1 f), rw g at w.2)
            ]))
  ]);
}
  where
    old :
        (sig : ℕ)
        → sigaddset t.pending info.si_signo sig ≡ true
        → (info.si_signo == sig) ≡ false
        → t.pending sig ≡ true
    old sig p f = rw f at p

kill-IsServed :
    (s : State) (info : Siginfo)
    → s.exit ≡ none
    → IsServed s
    → IsServed (signal_thread_handle_kill s info)
unfolding signal_thread_handle_kill
kill-IsServed s info e v =
    marked s info (signal_thread_deliver_signal s info) e v (deliver-IsDelivered s info)

delivered-IsServed : (s : State) → IsInformed s → IsServed (deliver_loop nsig 0 s)
delivered-IsServed s n =
    let (m, r) = deliver_loop-Settled nsig 0 s n (λ sig j h. absurd (omega arith)) in
    record {
      informed = m;
      served = (elim r [
        | inl e ↦ inl e
        | inr q ↦ inr (inr (Settled-Quiet (deliver_loop nsig 0 s) q))
      ]);
    }

-- A packet that is not for delivery leaves the others.
receive-IsServed :
    (s : State) (p : Packet) (ps : List Packet)
    → s.exit ≡ none
    → s.packets ≡ p ∷ ps
    → IsServed s
    → IsServed (receive (record s { packets = ps }) p)
unfolding receive signal_thread_handle_kill
receive-IsServed s deliver ps e f v = delivered-IsServed (record s { packets = ps }) v.informed
receive-IsServed s (kill info) ps e f v =
    kill-IsServed (record s { packets = ps }) info e
      (record {
        informed = v.informed;
        served = (elim v.served [
          | inl g ↦ inl g
          | inr (inl g) ↦ inr (inl (rw f at g))
          | inr (inr q) ↦ inr (inr q)
        ]);
      })

List-cases :
    (ps : List Packet) → (ps ≡ []) ⊎ ((p : Packet) × (rest : List Packet) × (ps ≡ p ∷ rest))
List-cases [] = inl refl
List-cases (p ∷ ps) = inr (p, ps, refl)

round-IsServed : (s : State) → IsServed s → IsServed (signal_thread_round s)
unfolding signal_thread_round
round-IsServed s v = elim (Option-cases s.exit) [
  | inr (x, e) ↦ rw (e, signal_thread_round) v
  | inl e ↦ elim (List-cases s.packets) [
    | inl f ↦ rw (e, signal_thread_round, f) v
    | inr (p, ps, f) ↦ rw (e, signal_thread_round, f) (receive-IsServed s p ps e f v)
  ]
]

-- One thing that happens: the signal thread takes a packet, a thread enters or leaves a handler, or
-- a call of a thread. `rt_sigsuspend` and new threads are not among them.
pub data Step (s : State) : State → Type 0 where
  rounds : Step s (signal_thread_round s)
  kills : (is_self : Bool) (info : Siginfo) → Step s (signal_kill s is_self info).0
  sets_up : (i : ℕ) → Step s (signal_setup_handler s i)
  returns : (i : ℕ) → Step s (sys_rt_sigreturn s i)
  masks : (i : ℕ) (how : How) (sigs : Sigset) → Step s (sys_rt_sigprocmask s i how (some sigs)).0
  enters_pwait : (i : ℕ) (sigmask : Sigset) → Step s (signal_before_pwait s i sigmask).0
  leaves_pwait : (i : ℕ) (oldmask : Sigset) → Step s (signal_after_pwait s i oldmask)

pub data Reach (s : State) : State → Type 0 where
  here : Reach s s
  next : {t u : State} → Reach s t → Step t u → Reach s u

signal_kill-IsServed :
    (s : State) (b : Bool) (info : Siginfo) → IsServed s → IsServed (signal_kill s b info).0
unfolding signal_kill
signal_kill-IsServed s false info v = v
signal_kill-IsServed s true info v = record {
  informed = v.informed;
  served = (elim v.served [
    | inl e ↦ inl e
    | inr (inl e) ↦ inr (inl (has_deliver-behind s.packets (kill info) e))
    | inr (inr q) ↦ inr (inr q)
  ]);
}

pwait-IsServed :
    (s : State) (i : ℕ) (m : Sigset) → IsServed s → IsServed (signal_before_pwait s i m).0
unfolding signal_before_pwait
pwait-IsServed s i m v = event_reset (change_mask s i m) i (change_mask-IsServed s i m v)
  where
    event_reset :
        (t : State) (i : ℕ)
        → IsServed t
        → IsServed (set_thread t i (record (thread_of t i) { sigevent = false }))
    event_reset t i v = record {
      informed = v.informed;
      served = (elim v.served [
        | inl e ↦ inl e
        | inr (inl e) ↦ inr (inl e)
        | inr (inr q) ↦
            inr (inr (set_thread-Quiet t i _ (λ j sig n h. q j sig h) (λ sig l h w. q i sig l h w)))
      ]);
    }

Step-IsServed : {s t : State} → Step s t → IsServed s → IsServed t
unfolding sys_rt_sigprocmask signal_after_pwait
Step-IsServed {s} rounds v = round-IsServed s v
Step-IsServed {s} (kills b info) v = signal_kill-IsServed s b info v
Step-IsServed {s} (sets_up i) v = setup-IsServed s i v
Step-IsServed {s} (returns i) v = sigreturn-IsServed s i v
Step-IsServed {s} (masks i how sigs) v =
    change_mask-IsServed s i (new_mask how (thread_of s i).sigmask sigs) v
Step-IsServed {s} (enters_pwait i m) v = pwait-IsServed s i m v
Step-IsServed {s} (leaves_pwait i m) v = change_mask-IsServed s i m v

-- However the signal thread, the handlers, kill, rt_sigreturn, rt_sigprocmask and the two halves of a
-- wait with a mask interleave from a served state: where a thread that runs no handler could take a
-- pending signal, the signal thread has a packet that makes it deliver, or the process has ended;
-- and the saved information of each pending signal is its own.
pub Reach-IsServed : {s t : State} → Reach s t → IsServed s → IsServed t
Reach-IsServed here v = v
Reach-IsServed (next {t} p e) v = Step-IsServed {s = t} e (Reach-IsServed p v)
