-- ===== src/Vfs/Descriptors/Calls.antt =====
-- src/syscall/vfs.c: the system calls on descriptors, in any order.
use foreign_linux.Base.{
  ℕ, zero, suc, ◌<◌, ◌≡◌, ◌⊎◌, refl, ap, Bool, false, ◌||◌, not, none, arith, ◌==◌, length,
  length-set, get_or-set_self, Bool-cases, Option-cases, inl, inr,
}
use foreign_linux.Vfs.Descriptors.{
  State, ok, emfile, empty_slot, slot, update, vfs_ref, vfs_release, set_slot, vfs_close, filed_of,
  free_slot, in_table, store_file_internal, store_new, dup_free, dup_at, dup_file, minus_one,
  vfs_dup, sys_close, reset_loop, shutdown_loop,
}
use foreign_linux.Vfs.Descriptors.Counting.{
  IsCounted, one_more, member, vfs_ref-IsCounted, vfs_release-IsCounted, put-IsCounted,
  close_slot-IsCounted, vfs_close-IsCounted, filled-pos,
}
use foreign_linux.Vfs.Descriptors.Slots.{IsLowest, free_slot_lem}

-- An address that no file has.
pub record IsFresh (s : State) (f : ℕ) : Type 0 where
  pub unreferenced : s.ref f ≡ 0
  pub unclosed : member f s.closed ≡ false

pub length-vfs_close : (s : State) (i : ℕ) → length (vfs_close s i).filed ≡ length s.filed
unfolding vfs_close vfs_release
length-vfs_close s i = elim (Option-cases (slot s i).fd) [
  | inl e ↦ rw (e, vfs_close) refl
  | inr (f, e) ↦ rw (e, vfs_close) (length-set s.filed i empty_slot)
]

pub vfs_close-unused : (s : State) (i : ℕ) → i < length s.filed → (slot (vfs_close s i) i).fd ≡ none
unfolding vfs_close vfs_release
vfs_close-unused s i h = elim (Option-cases (slot s i).fd) [
  | inl e ↦ rw (e, vfs_close) e
  | inr (f, e) ↦
      rw (e, vfs_close) (ap (λ d. d.fd) (get_or-set_self s.filed i empty_slot empty_slot h))
]

module _ (extra : ℕ → ℕ) where
  made-IsCounted :
      (s : State) (f : ℕ)
      → IsFresh s f
      → IsCounted extra s
      → IsCounted (one_more extra f) (record s { ref = update s.ref f 1 })
  made-IsCounted s f n c = record {
    counted = λ g. ground (arith, c.counted g, n.unreferenced);
    closed_last = λ g m. ground (arith, c.closed_last g, n.unclosed);
  }

  -- A file is stored if a slot is free, and its reference is then the slot's; the others stay.
  pub store-cases :
      (s : State) (f : ℕ) (cloexec : Bool)
      → IsCounted (one_more extra f) s
      → ((i : ℕ) × (store_file_internal s f cloexec ≡ (set_slot s i (filed_of f cloexec), ok i))
          × (IsLowest s.filed i)
          × IsCounted extra (set_slot s i (filed_of f cloexec)))
        ⊎ (store_file_internal s f cloexec ≡ (s, emfile))
  unfolding store_file_internal
  store-cases s f cloexec c = elim (Option-cases (free_slot s.filed)) [
    | inl e ↦ inr (rw e refl)
    | inr (i, e) ↦
        let l : IsLowest s.filed i = (free_slot_lem s.filed).0 i e in
        inl (i, rw e refl, l, put-IsCounted f i cloexec c l.in_table l.unused)
  ]

  pub store_new-IsCounted :
      (s : State) (f : ℕ) (cloexec : Bool)
      → IsFresh s f
      → IsCounted extra s
      → IsCounted extra (store_new s f cloexec).0
  unfolding store_new
  store_new-IsCounted s f cloexec n c =
      let c1 = made-IsCounted s f n c in
      elim (store-cases (record s { ref = update s.ref f 1 }) f cloexec c1) [
        | inl (i, e, l, d) ↦ rw e d
        | inr e ↦ rw e (vfs_release-IsCounted f c1)
      ]

  dup_free-IsCounted :
      (s : State) (f : ℕ) (cloexec : Bool)
      → IsCounted (one_more extra f) s
      → IsCounted extra (dup_free s f cloexec (free_slot s.filed)).0
  unfolding dup_free vfs_release
  dup_free-IsCounted s f cloexec c = elim (Option-cases (free_slot s.filed)) [
    | inl e ↦ rw e (vfs_release-IsCounted f c)
    | inr (i, e) ↦
        let l : IsLowest s.filed i = (free_slot_lem s.filed).0 i e in
        rw e (put-IsCounted f i cloexec c l.in_table l.unused)
  ]

  dup_at-IsCounted :
      (s : State) (f fd newfd : ℕ) (cloexec : Bool)
      → IsCounted (one_more extra f) s
      → IsCounted extra (dup_at s f fd newfd cloexec).0
  unfolding dup_at vfs_release vfs_close
  dup_at-IsCounted s f fd newfd cloexec c =
      elim (Bool-cases (newfd == fd || not (in_table s newfd))) [
        | inl e ↦ rw e (vfs_release-IsCounted f c)
        | inr e ↦
            let h : newfd < length s.filed = ground arith in
            let k : newfd < length (vfs_close s newfd).filed =
              omega (arith, length-vfs_close s newfd) in
            rw e (
              put-IsCounted f newfd cloexec (vfs_close-IsCounted newfd c) k
                (vfs_close-unused s newfd h))
      ]

  pub vfs_dup-IsCounted :
      (s : State) (fd newfd : ℕ) (cloexec : Bool)
      → IsCounted extra s
      → IsCounted extra (vfs_dup s fd newfd cloexec).0
  unfolding vfs_dup dup_file vfs_ref
  vfs_dup-IsCounted s fd newfd cloexec c = elim (Option-cases (slot s fd).fd) [
    | inl e ↦ rw (e, vfs_dup) c
    | inr (f, e) ↦
        let d = vfs_ref-IsCounted f c (filled-pos fd f c e) in
        elim (Bool-cases (newfd == minus_one)) [
          | inl t ↦ rw (e, t) (dup_free-IsCounted (vfs_ref s f) f cloexec d)
          | inr t ↦ rw (e, t) (dup_at-IsCounted (vfs_ref s f) f fd newfd cloexec d)
        ]
  ]

  pub sys_close-IsCounted :
      (s : State) (fd : ℕ) → IsCounted extra s → IsCounted extra (sys_close s fd).0
  unfolding sys_close vfs_release
  sys_close-IsCounted s fd c = elim (Bool-cases (in_table s fd)) [
    | inr e ↦ rw e c
    | inl e ↦ elim (Option-cases (slot s fd).fd) [
      | inl n ↦ rw (e, n, sys_close) c
      | inr (f, n) ↦ rw (e, n, sys_close) (close_slot-IsCounted fd f c n)
    ]
  ]

  pub reset_loop-IsCounted :
      (n i : ℕ) (s : State) → IsCounted extra s → IsCounted extra (reset_loop n i s)
  unfolding reset_loop
  reset_loop-IsCounted zero i s c = c
  reset_loop-IsCounted (suc n) i s c = elim (Bool-cases (slot s i).cloexec) [
    | inl e ↦
        rw (e, reset_loop)
          (reset_loop-IsCounted n (suc i) (vfs_close s i) (vfs_close-IsCounted i c))
    | inr e ↦ rw (e, reset_loop) (reset_loop-IsCounted n (suc i) s c)
  ]

  pub shutdown_loop-IsCounted :
      (n i : ℕ) (s : State) → IsCounted extra s → IsCounted extra (shutdown_loop n i s)
  unfolding shutdown_loop
  shutdown_loop-IsCounted zero i s c = c
  shutdown_loop-IsCounted (suc n) i s c =
      shutdown_loop-IsCounted n (suc i) (vfs_close s i) (vfs_close-IsCounted i c)
