-- ===== src/Signals/Served.antt =====
-- src/syscall/sig.c: pending signals that a thread could take, and the packets for their delivery.
use foreign_linux.Base.{
  ℕ, zero, suc, ◌+◌, ◌≤◌, ◌<◌, ◌≡◌, ◌≢◌, ◌⊎◌, refl, sym, ap, ◌∙◌, Bool, true, false, ◌&&◌, not,
  Option, none, some, List, [], ◌∷◌, arith, ◌==◌, length, get_or, if◌then◌else◌, Bool-cases,
  Option-cases, inl, inr,
}
use mathlib.Core.Path.{subst}
use foreign_linux.Signals.{
  Sigset, nsig, Siginfo, Thread, Packet, kill, deliver, State, Handler, sig_dfl, sig_ign, function,
  thread_of, new_thread, accepts, interrupt, accept_loop, accepted, signal_default_handler,
  is_fatal, signal_thread_deliver_signal, clear_pending, deliver_pending, deliver_loop,
  any_unmasked, sigdelset,
}

abbrev pub has_deliver : List Packet → Bool
has_deliver [] = false
has_deliver (deliver ∷ ps) = true
has_deliver (kill info ∷ ps) = has_deliver ps

-- The thread does not run a handler, and could take a pending signal.
abbrev pub Waits : Sigset → Thread → ℕ → Type 0
Waits pending t sig = (t.frames ≡ []) × (pending sig ≡ true) × (accepts t sig ≡ true)

-- No thread but `k` could take a pending signal.
abbrev pub QuietBut : ℕ → State → Type 0
QuietBut k s =
    (j sig : ℕ) → j ≢ k → j < length s.threads → sig < nsig → ¬ Waits s.pending (thread_of s j) sig

abbrev pub Quiet : State → Type 0
Quiet s = (j sig : ℕ) → j < length s.threads → sig < nsig → ¬ Waits s.pending (thread_of s j) sig

-- The saved information is that of the signal.
abbrev pub IsInformed : State → Type 0
IsInformed s = (sig : ℕ) → s.pending sig ≡ true → (s.pending_info sig).si_signo ≡ sig

-- Where a thread outside of handlers could take a pending signal, the signal thread has a packet
-- that makes it deliver, if the process goes on.
pub record IsServed (s : State) : Type 0 where
  pub informed : IsInformed s
  pub served : (s.exit ≢ none) ⊎ (has_deliver s.packets ≡ true) ⊎ Quiet s

-- A thread after another one has taken a signal, or the same.
abbrev pub Fewer : List Thread → List Thread → Type 0
Fewer ts us =
    (length us ≡ length ts)
    × ((j : ℕ)
        → (get_or us j new_thread ≡ get_or ts j new_thread)
          ⊎ ((get_or us j new_thread).can_accept_signal ≡ false))

-- What the loop makes of the threads.
abbrev Loop : List Thread → ℕ → Option (List Thread) → Type 0
Loop ts sig none = (j : ℕ) → j < length ts → accepts (get_or ts j new_thread) sig ≡ false
Loop ts sig (some us) = Fewer ts us

Loop-taken :
    (t : Thread) (ts : List Thread) (info : Siginfo) → Fewer (t ∷ ts) (interrupt t info ∷ ts)
Loop-taken t ts info = (refl, go)
  where
    go :
        (j : ℕ)
        → (get_or (interrupt t info ∷ ts) j new_thread ≡ get_or (t ∷ ts) j new_thread)
          ⊎ ((get_or (interrupt t info ∷ ts) j new_thread).can_accept_signal ≡ false)
    go zero = inr refl
    go (suc j) = inl refl

abbrev keep_thread : Thread → Option (List Thread) → Option (List Thread)
keep_thread t none = none
keep_thread t (some us) = some (t ∷ us)

Loop-kept :
    (t : Thread) (ts : List Thread) (sig : ℕ) (o : Option (List Thread))
    → accepts t sig ≡ false
    → Loop ts sig o
    → Loop (t ∷ ts) sig (keep_thread t o)
Loop-kept t ts sig none e l = go
  where
    go : (j : ℕ) → j < length (t ∷ ts) → accepts (get_or (t ∷ ts) j new_thread) sig ≡ false
    go zero h = e
    go (suc j) h = l j (omega (arith, h))
Loop-kept t ts sig (some us) e (l, f) = (ap suc l, go)
  where
    go :
        (j : ℕ)
        → (get_or (t ∷ us) j new_thread ≡ get_or (t ∷ ts) j new_thread)
          ⊎ ((get_or (t ∷ us) j new_thread).can_accept_signal ≡ false)
    go zero = inl refl
    go (suc j) = f j

accept_loop-Loop : (ts : List Thread) (info : Siginfo) → Loop ts info.si_signo (accept_loop ts info)
unfolding accept_loop
accept_loop-Loop [] info = λ j h. absurd (omega arith)
accept_loop-Loop (t ∷ ts) info = elim (Bool-cases (accepts t info.si_signo)) [
  | inl e ↦ rw (e, accept_loop) (Loop-taken t ts info)
  | inr e ↦
      rw (e, accept_loop)
        (Loop-kept t ts info.si_signo (accept_loop ts info) e (accept_loop-Loop ts info))
]

Waits-Fewer :
    (pending : Sigset) (ts us : List Thread) (j sig : ℕ)
    → Fewer ts us
    → Waits pending (get_or us j new_thread) sig
    → Waits pending (get_or ts j new_thread) sig
Waits-Fewer pending ts us j sig (l, f) (a, b, c) = elim (f j) [
  | inl e ↦ (rw e at a, b, rw e at c)
  | inr e ↦ absurd (ground (arith, e, c))
]

pub any_unmasked-false :
    (n i : ℕ) (pending sigmask : Sigset)
    → any_unmasked n i pending sigmask ≡ false
    → (sig : ℕ) → i ≤ sig
    → sig < i + n
    → pending sig ≡ true
    → sigmask sig ≡ true
unfolding any_unmasked
any_unmasked-false zero i pending sigmask e sig h k p = absurd (omega arith)
any_unmasked-false (suc n) i pending sigmask e sig h k p = elim (Bool-cases (i == sig)) [
  | inl f ↦ let g : i ≡ sig = ground (arith, f) in ground (arith, rw g at e)
  | inr f ↦
      any_unmasked-false n (suc i) pending sigmask (ground (arith, e)) sig (ground (arith, f, h))
        (omega (arith, k)) p
]

-- What delivering one signal does to the threads and to the rest.
pub record IsDelivered (s : State) (sig : ℕ) (r : State × Bool) : Type 0 where
  pub fewer : Fewer s.threads r.0.threads
  pub same_pending : r.0.pending ≡ s.pending
  pub same_info : r.0.pending_info ≡ s.pending_info
  pub same_packets : r.0.packets ≡ s.packets
  pub refused :
      r.1 ≡ false
      → (r.0.threads ≡ s.threads)
        × ((j : ℕ) → j < length s.threads → accepts (thread_of s j) sig ≡ false)

Fewer-refl : (ts : List Thread) → Fewer ts ts
Fewer-refl ts = (refl, λ j. inl refl)

default-IsDelivered :
    (s : State) (info : Siginfo) → IsDelivered s info.si_signo (signal_default_handler s info, true)
default-IsDelivered s info = ended (is_fatal info.si_signo)
  where
    ended :
        (b : Bool)
        → IsDelivered s info.si_signo
            ((if b then record s { exit = some info.si_signo } else s), true)
    ended true = record {
      fewer = Fewer-refl s.threads;
      same_pending = refl;
      same_info = refl;
      same_packets = refl;
      refused = λ e. ground arith;
    }
    ended false = record {
      fewer = Fewer-refl s.threads;
      same_pending = refl;
      same_info = refl;
      same_packets = refl;
      refused = λ e. ground arith;
    }

accepted-IsDelivered :
    (s : State) (sig : ℕ) (o : Option (List Thread))
    → Loop s.threads sig o
    → IsDelivered s sig (accepted s o)
accepted-IsDelivered s sig none l = record {
  fewer = Fewer-refl s.threads;
  same_pending = refl;
  same_info = refl;
  same_packets = refl;
  refused = λ e. (refl, l);
}
accepted-IsDelivered s sig (some us) l = record {
  fewer = l;
  same_pending = refl;
  same_info = refl;
  same_packets = refl;
  refused = λ e. ground arith;
}

Handler-cases : (h : Handler) → (h ≡ sig_dfl) ⊎ (h ≡ sig_ign) ⊎ ((f : ℕ) × (h ≡ function f))
Handler-cases sig_dfl = inl refl
Handler-cases sig_ign = inr (inl refl)
Handler-cases (function f) = inr (inr (f, refl))

pub deliver-IsDelivered :
    (s : State) (info : Siginfo) → IsDelivered s info.si_signo (signal_thread_deliver_signal s info)
unfolding signal_thread_deliver_signal
deliver-IsDelivered s info = elim (Handler-cases (s.actions info.si_signo).sa_handler) [
  | inl e ↦ rw (e, signal_thread_deliver_signal) (default-IsDelivered s info)
  | inr (inl e) ↦
      rw (e, signal_thread_deliver_signal)
        (record {
          fewer = Fewer-refl s.threads;
          same_pending = refl;
          same_info = refl;
          same_packets = refl;
          refused = λ e. ground arith;
        })
  | inr (inr (f, e)) ↦
      rw (e, signal_thread_deliver_signal)
        (accepted-IsDelivered s info.si_signo (accept_loop s.threads info)
          (accept_loop-Loop s.threads info))
]

-- Fewer threads wait for fewer signals.
pub Quiet-Fewer :
    (s t : State)
    → Fewer s.threads t.threads
    → ((sig : ℕ) → t.pending sig ≡ true → s.pending sig ≡ true)
    → Quiet s
    → Quiet t
Quiet-Fewer s t f p q j sig h k (a, b, c) =
    let (d, e, g) = Waits-Fewer t.pending s.threads t.threads j sig f (a, b, c) in
    q j sig (omega (arith, h, f.0)) k (d, p sig e, g)

pub Fewer-accepts :
    (ts us : List Thread) (j sig : ℕ)
    → Fewer ts us
    → accepts (get_or ts j new_thread) sig ≡ false
    → accepts (get_or us j new_thread) sig ≡ false
Fewer-accepts ts us j sig (l, f) e = elim (f j) [ inl g ↦ rw g e | inr g ↦ ground (arith, g) ]

-- The signals below `i` that are still pending are accepted by no thread.
abbrev pub Settled : ℕ → State → Type 0
Settled i s =
    (sig j : ℕ)
    → sig < i
    → s.pending sig ≡ true
    → j < length s.threads
    → accepts (thread_of s j) sig ≡ false

pub Settled-Quiet : (s : State) → Settled nsig s → Quiet s
Settled-Quiet s q j sig h k (a, b, c) = ground (arith, q sig j k b h)

lower : (i sig : ℕ) (b : Bool) → sig < suc i → (not (i == sig) && b) ≡ true → sig < i
lower i sig b h e = ground (arith, h, e)

and-right : (a b : Bool) → (a && b) ≡ true → b ≡ true
and-right a b e = ground (arith, e)

cleared :
    (s : State) (i : ℕ) (r : State × Bool)
    → IsInformed s
    → Settled i s
    → IsDelivered s i r
    → IsInformed (clear_pending i r) × Settled (suc i) (clear_pending i r)
cleared s i (t, true) n q d = (
  (λ sig p. rw d.same_info (n sig (was sig p))),
  λ sig j h p k.
      let m : sig < i = lower i sig (t.pending sig) h p in
      Fewer-accepts s.threads t.threads j sig d.fewer
        (q sig j m (was sig p) (omega (arith, k, d.fewer.0))),
)
  where
    was : (sig : ℕ) → sigdelset t.pending i sig ≡ true → s.pending sig ≡ true
    was sig p = ap (λ f. f sig) (sym d.same_pending) ∙ and-right (not (i == sig)) (t.pending sig) p
cleared s i (t, false) n q d =
    let (e, r) = d.refused refl in
    (
      (λ sig p. rw d.same_info (n sig (was sig p))),
      λ sig j h p k.
          let l : j < length s.threads = omega (arith, k, d.fewer.0) in
          rw e (elim (Bool-cases (sig == i)) [
            | inl f ↦ let g : sig ≡ i = ground (arith, f) in rw g (r j l)
            | inr f ↦ let m : sig < i = ground (arith, f, h) in q sig j m (was sig p) l
          ]),
    )
  where
    was : (sig : ℕ) → t.pending sig ≡ true → s.pending sig ≡ true
    was sig p = ap (λ f. f sig) (sym d.same_pending) ∙ p

delivered :
    (s : State) (i : ℕ)
    → IsInformed s
    → s.pending i ≡ true
    → IsDelivered s i (signal_thread_deliver_signal s (s.pending_info i))
delivered s i n p =
    subst (λ x. IsDelivered s x (signal_thread_deliver_signal s (s.pending_info i))) (n i p)
      (deliver-IsDelivered s (s.pending_info i))

shifted :
    (m i : ℕ) (t : State)
    → (t.exit ≢ none) ⊎ Settled (suc i + m) t
    → (t.exit ≢ none) ⊎ Settled (i + suc m) t
shifted m i t (inl e) = inl e
shifted m i t (inr q) = inr (λ sig j h. q sig j (omega (arith, h)))

not_pending : (s : State) (i : ℕ) → s.pending i ≡ false → Settled i s → Settled (suc i) s
not_pending s i p q = λ sig j h e k. elim (Bool-cases (sig == i)) [
  | inl f ↦ let g : sig ≡ i = ground (arith, f) in absurd (ground (arith, rw g at e, p))
  | inr f ↦ let m : sig < i = ground (arith, f, h) in q sig j m e k
]

pub deliver_loop-Settled :
    (n i : ℕ) (s : State)
    → IsInformed s
    → Settled i s
    → IsInformed (deliver_loop n i s)
      × ((deliver_loop n i s).exit ≢ none ⊎ Settled (i + n) (deliver_loop n i s))
unfolding deliver_loop deliver_pending
deliver_loop-Settled zero i s n q = (n, inr (λ sig j h. q sig j (omega (arith, h))))
deliver_loop-Settled (suc m) i s n q = elim (Option-cases s.exit) [
  | inr (x, e) ↦ rw (e, deliver_loop) (n, inl (λ f. ground (arith, f, e)))
  | inl e ↦
      rw (e, deliver_loop)
        (elim (Bool-cases (s.pending i)) [
          | inl p ↦
              let d = delivered s i n p in
              let (n2, q2) =
                cleared s i (signal_thread_deliver_signal s (s.pending_info i)) n q d in
              let (n3, r) = deliver_loop-Settled m (suc i) (deliver_pending s i) n2 q2 in
              rw p (n3, shifted m i (deliver_loop m (suc i) (deliver_pending s i)) r)
          | inr p ↦
              let (n3, r) = deliver_loop-Settled m (suc i) s n (not_pending s i p q) in
              rw p (n3, shifted m i (deliver_loop m (suc i) s) r)
        ])
]
