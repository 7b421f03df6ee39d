-- ===== src/Vfs/Descriptors/Steps.antt =====
-- src/syscall/vfs.c: the calls on descriptors as steps, in any order.
use foreign_linux.Base.{
  ℕ, ◌+◌, ◌≡◌, ◌≢◌, Bool, true, false, some, arith, length, Option-cases, inl, inr,
}
use foreign_linux.Vfs.Descriptors.{
  State, slot, update, vfs_ref, vfs_release, set_slot, vfs_close, filed_of, store_file_internal,
  store_new, files, store_write_end, store_read_end, sys_pipe2, vfs_dup, sys_close, vfs_reset,
  vfs_shutdown, Command, dupfd, getfd, getfl, other, setfd, setfl, fcntl, fcntl_on, fcntl_file,
  minus_one,
}
use foreign_linux.Vfs.Descriptors.Counting.{
  holders, IsCounted, one_more, member, vfs_ref-IsCounted, vfs_release-IsCounted,
  vfs_close-IsCounted, again-IsCounted, filled-pos,
}
use foreign_linux.Vfs.Descriptors.Calls.{
  IsFresh, store-cases, store_new-IsCounted, vfs_dup-IsCounted, sys_close-IsCounted,
  reset_loop-IsCounted, shutdown_loop-IsCounted,
}

fcntl_file-IsCounted :
    {extra : ℕ → ℕ} (s : State) (fd f : ℕ) (command : Command)
    → (slot s fd).fd ≡ some f
    → IsCounted extra s
    → IsCounted extra (fcntl_file s fd f command).0
fcntl_file-IsCounted s fd f dupfd e c = c
fcntl_file-IsCounted s fd f getfd e c = c
fcntl_file-IsCounted s fd f getfl e c = c
fcntl_file-IsCounted s fd f other e c = c
fcntl_file-IsCounted s fd f (setfd b) e c = again-IsCounted fd f b c e
fcntl_file-IsCounted s fd f (setfl u n) e c = record {
  counted = λ g. ground (arith, c.counted g);
  closed_last = λ g m. ground (arith, c.closed_last g);
}

module _ (extra : ℕ → ℕ) where
  both_made-IsCounted :
      (s : State) (f g : ℕ)
      → IsFresh s f
      → IsFresh s g
      → f ≢ g
      → IsCounted extra s
      → IsCounted (one_more (one_more extra g) f) (record s { ref = update (update s.ref f 1) g 1 })
  both_made-IsCounted s f g n m d c = record {
    counted = λ k. ground (arith, c.counted k, n.unreferenced, m.unreferenced);
    closed_last = λ k p. ground (arith, c.closed_last k, n.unclosed, m.unclosed);
  }

  write_end-IsCounted :
      (s : State) (rfd fread fwrite : ℕ) (cloexec : Bool)
      → IsCounted (one_more extra fwrite) s
      → IsCounted extra (store_write_end s rfd fread fwrite cloexec).0
  unfolding store_write_end vfs_close vfs_release store_file_internal
  write_end-IsCounted s rfd fread fwrite cloexec c = elim (store-cases extra s fwrite cloexec c) [
    | inl (i, e, l, d) ↦ rw e d
    | inr e ↦ rw e (vfs_release-IsCounted fwrite (vfs_close-IsCounted rfd c))
  ]

  sys_pipe2-IsCounted :
      (s : State) (cloexec : Bool) (fread fwrite : ℕ)
      → IsFresh s fread
      → IsFresh s fwrite
      → fread ≢ fwrite
      → IsCounted extra s
      → IsCounted extra (sys_pipe2 s false true cloexec (files fread fwrite)).0
  unfolding sys_pipe2 store_read_end vfs_release store_write_end
  sys_pipe2-IsCounted s cloexec fread fwrite n m d c =
      let c1 = both_made-IsCounted s fread fwrite n m d c in
      let s1 : State = record s { ref = update (update s.ref fread 1) fwrite 1 } in
      elim (store-cases (one_more extra fwrite) s1 fread cloexec c1) [
        | inl (i, e, l, k) ↦
            rw e (
              write_end-IsCounted (set_slot s1 i (filed_of fread cloexec)) i fread fwrite cloexec k)
        | inr e ↦ rw e (vfs_release-IsCounted fwrite (vfs_release-IsCounted fread c1))
      ]

  -- The same with the reference that the call has taken.
  fcntl_file-shared :
      (s : State) (fd f : ℕ) (command : Command)
      → (slot s fd).fd ≡ some f
      → IsCounted extra s
      → IsCounted (one_more extra f) (fcntl_file (vfs_ref s f) fd f command).0
  unfolding vfs_ref
  fcntl_file-shared s fd f command e c =
      fcntl_file-IsCounted (vfs_ref s f) fd f command e
        (vfs_ref-IsCounted f c (filled-pos fd f c e))

  fcntl_on-IsCounted :
      (s : State) (fd : ℕ) (command : Command)
      → IsCounted extra s
      → IsCounted extra (fcntl_on (slot s fd).fd s fd command).0
  unfolding fcntl_on vfs_ref vfs_release
  fcntl_on-IsCounted s fd command c = elim (Option-cases (slot s fd).fd) [
    | inl e ↦ rw (e, fcntl_on) c
    | inr (f, e) ↦ rw (e, fcntl_on) (vfs_release-IsCounted f (fcntl_file-shared s fd f command e c))
  ]

  fcntl-IsCounted :
      (s : State) (fd : ℕ) (command : Command)
      → IsCounted extra s
      → IsCounted extra (fcntl s fd command).0
  unfolding fcntl
  fcntl-IsCounted s fd dupfd c = vfs_dup-IsCounted extra s fd minus_one false c
  fcntl-IsCounted s fd getfd c = fcntl_on-IsCounted s fd getfd c
  fcntl-IsCounted s fd getfl c = fcntl_on-IsCounted s fd getfl c
  fcntl-IsCounted s fd other c = fcntl_on-IsCounted s fd other c
  fcntl-IsCounted s fd (setfd b) c = fcntl_on-IsCounted s fd (setfd b) c
  fcntl-IsCounted s fd (setfl u n) c = fcntl_on-IsCounted s fd (setfl u n) c

  reset-IsCounted : (s : State) → IsCounted extra s → IsCounted extra (vfs_reset s)
  unfolding vfs_reset
  reset-IsCounted s c =
      let d = reset_loop-IsCounted extra (length s.filed) 0 s c in
      record { counted = d.counted; closed_last = d.closed_last }

  shutdown-IsCounted : (s : State) → IsCounted extra s → IsCounted extra (vfs_shutdown s)
  unfolding vfs_shutdown
  shutdown-IsCounted s c = shutdown_loop-IsCounted extra (length s.filed) 0 s c

-- One call. A call that makes files gets addresses that no file has.
pub data Step (s : State) : State → Type 0 where
  opens : (f : ℕ) (cloexec : Bool) → IsFresh s f → Step s (store_new s f cloexec).0
  pipes :
      (f g : ℕ) (cloexec : Bool)
      → IsFresh s f
      → IsFresh s g
      → f ≢ g
      → Step s (sys_pipe2 s false true cloexec (files f g)).0
  dups : (fd newfd : ℕ) (cloexec : Bool) → Step s (vfs_dup s fd newfd cloexec).0
  closes : (fd : ℕ) → Step s (sys_close s fd).0
  controls : (fd : ℕ) (command : Command) → Step s (fcntl s fd command).0
  execs : Step s (vfs_reset s)
  exits : Step s (vfs_shutdown s)

pub data Reach (s : State) : State → Type 0 where
  here : Reach s s
  next : {t u : State} → Reach s t → Step t u → Reach s u

module _ (extra : ℕ → ℕ) where
  Step-IsCounted : {s t : State} → Step s t → IsCounted extra s → IsCounted extra t
  Step-IsCounted {s} (opens f b n) c = store_new-IsCounted extra s f b n c
  Step-IsCounted {s} (pipes f g b n m d) c = sys_pipe2-IsCounted extra s b f g n m d c
  Step-IsCounted {s} (dups fd newfd b) c = vfs_dup-IsCounted extra s fd newfd b c
  Step-IsCounted {s} (closes fd) c = sys_close-IsCounted extra s fd c
  Step-IsCounted {s} (controls fd command) c = fcntl-IsCounted extra s fd command c
  Step-IsCounted {s} execs c = reset-IsCounted extra s c
  Step-IsCounted {s} exits c = shutdown-IsCounted extra s c

  Reach-IsCounted : {s t : State} → Reach s t → IsCounted extra s → IsCounted extra t
  Reach-IsCounted here c = c
  Reach-IsCounted (next {t} p e) c = Step-IsCounted {s = t} e (Reach-IsCounted p c)

-- After any calls from a state with right reference counts, the count of each file is the number of
-- the descriptors that hold it and of the references outside the table, and the `close` operation was
-- called only for files that no descriptor holds any more.
pub Reach-counted :
    (extra : ℕ → ℕ) {s t : State}
    → IsCounted extra s
    → Reach s t
    → (f : ℕ)
    → (t.ref f ≡ holders f t.filed + extra f)
      × (member f t.closed ≡ true → (fd : ℕ) → (slot t fd).fd ≢ some f)
Reach-counted extra {t} c p f =
    let d : IsCounted extra t = Reach-IsCounted extra p c in
    (d.counted f, λ m fd e. absurd (omega (arith, filled-pos fd f d e, d.closed_last f m)))
