-- ===== src/Vfs/Descriptors/Tables.antt =====
-- src/syscall/vfs.c: what dup, dup2 and exec make of the table.
use foreign_linux.Base.{
  ℕ, zero, suc, ◌+◌, ◌≤◌, ◌<◌, ◌≡◌, ◌≢◌, refl, ap, ◌∙◌, false, ◌||◌, not, none, some, arith, ◌==◌,
  length, get_or-set_self, get_or-set_ne, if◌then◌else◌, Bool-cases, Option-cases, inl, inr,
}
use foreign_linux.Vfs.Descriptors.{
  Filed, State, ok, emfile, empty_slot, slot, set_slot, filed_of, free_slot, in_table, vfs_ref,
  vfs_release, vfs_close, dup_free, dup_at, dup_file, minus_one, vfs_dup, sys_dup, sys_dup2,
  reset_loop, vfs_reset,
}
use foreign_linux.Vfs.Descriptors.Slots.{IsLowest, free_slot_lem}
use foreign_linux.Vfs.Descriptors.Calls.{length-vfs_close, vfs_close-unused}

slot-set_slot : (s : State) (i : ℕ) (v : Filed) → i < length s.filed → slot (set_slot s i v) i ≡ v
slot-set_slot s i v h = get_or-set_self s.filed i v empty_slot h

slot-vfs_close : (s : State) (i j : ℕ) → i ≢ j → slot (vfs_close s i) j ≡ slot s j
unfolding vfs_close vfs_release
slot-vfs_close s i j n = elim (Option-cases (slot s i).fd) [
  | inl e ↦ rw (e, vfs_close) refl
  | inr (f, e) ↦ rw (e, vfs_close) (get_or-set_ne s.filed i j empty_slot empty_slot n)
]

-- For two different descriptors of the table, of which the first has a file, dup2 returns the second,
-- which gets the file without the close-on-exec flag, whatever it held; all others stay.
pub sys_dup2_lem :
    (s : State) (fd newfd f : ℕ)
    → (slot s fd).fd ≡ some f
    → newfd ≢ fd
    → newfd < length s.filed
    → length s.filed ≤ minus_one
    → let (t, r) = sys_dup2 s fd newfd in
      (r ≡ ok newfd)
      × (slot t newfd ≡ filed_of f false)
      × ((j : ℕ) → newfd ≢ j → slot t j ≡ slot s j)
unfolding sys_dup2 vfs_dup dup_file dup_at vfs_ref
sys_dup2_lem s fd newfd f e n h k =
    let m : (newfd == minus_one) ≡ false = ground arith in
    let o : (newfd == fd || not (in_table s newfd)) ≡ false = ground arith in
    let l : newfd < length (vfs_close (vfs_ref s f) newfd).filed =
      omega (arith, length-vfs_close (vfs_ref s f) newfd) in
    rw (e, m, o)
      (
        refl,
        slot-set_slot (vfs_close (vfs_ref s f) newfd) newfd (filed_of f false) l,
        λ j d.
            get_or-set_ne (vfs_close (vfs_ref s f) newfd).filed newfd j (filed_of f false)
              empty_slot d
            ∙ slot-vfs_close (vfs_ref s f) newfd j d,
      )

-- For a descriptor with a file, sys_dup takes the lowest free descriptor, puts the file there without
-- the close-on-exec flag and leaves the others, or fails with EMFILE where all are used and leaves
-- the table. dup2 to -1 does the same.
pub sys_dup_lem :
    (s : State) (fd f : ℕ)
    → (slot s fd).fd ≡ some f
    → (sys_dup2 s fd minus_one ≡ sys_dup s fd)
      × ((i : ℕ)
          → free_slot s.filed ≡ some i
          → ((sys_dup s fd).1 ≡ ok i)
            × IsLowest s.filed i
            × (slot (sys_dup s fd).0 i ≡ filed_of f false)
            × ((j : ℕ) → i ≢ j → slot (sys_dup s fd).0 j ≡ slot s j))
      × (free_slot s.filed ≡ none
          → ((sys_dup s fd).1 ≡ emfile) × ((sys_dup s fd).0.filed ≡ s.filed))
unfolding sys_dup sys_dup2 vfs_dup dup_file dup_free vfs_ref vfs_release
sys_dup_lem s fd f e = (
  refl,
  λ i o.
      let l : IsLowest s.filed i = (free_slot_lem s.filed).0 i o in
      rw (e, o)
        (
          refl,
          l,
          slot-set_slot s i (filed_of f false) l.in_table,
          λ j d. get_or-set_ne s.filed i j (filed_of f false) empty_slot d,
        ),
  λ o. rw (e, o) (refl, refl),
)

reset_loop-before : (n i : ℕ) (s : State) (j : ℕ) → j < i → slot (reset_loop n i s) j ≡ slot s j
unfolding reset_loop
reset_loop-before zero i s j h = refl
reset_loop-before (suc n) i s j h = elim (Bool-cases (slot s i).cloexec) [
  | inl e ↦
      rw (e, reset_loop)
        (reset_loop-before n (suc i) (vfs_close s i) j (omega arith)
          ∙ slot-vfs_close s i j (ground arith))
  | inr e ↦ rw (e, reset_loop) (reset_loop-before n (suc i) s j (omega arith))
]

module _ (n i : ℕ) (s : State) (j : ℕ) (h : j < length s.filed) where
  kept_or_closed :
      (same : i ≡ j)
      → (slot (reset_loop (suc n) i s) j).fd ≡ (if (slot s j).cloexec then none else (slot s j).fd)
  unfolding reset_loop
  kept_or_closed same = elim (Bool-cases (slot s j).cloexec) [
    | inl e ↦
        rw (same, reset_loop, e)
          (ap (λ d. d.fd) (reset_loop-before n (suc j) (vfs_close s j) j (omega arith))
            ∙ vfs_close-unused s j h)
    | inr e ↦
        rw (same, reset_loop, e) (ap (λ d. d.fd) (reset_loop-before n (suc j) s j (omega arith)))
  ]

reset_loop_lem :
    (n i : ℕ) (s : State) (j : ℕ)
    → i ≤ j
    → j < i + n
    → j < length s.filed
    → (slot (reset_loop n i s) j).fd ≡ (if (slot s j).cloexec then none else (slot s j).fd)
unfolding reset_loop
reset_loop_lem zero i s j h k l = absurd (omega arith)
reset_loop_lem (suc n) i s j h k l = elim (Bool-cases (i == j)) [
  | inl e ↦ kept_or_closed n i s j l (ground arith)
  | inr e ↦
      let ne : i ≢ j = ground arith in
      let below : suc i ≤ j = ground arith in
      elim (Bool-cases (slot s i).cloexec) [
        | inl c ↦
            let m : j < length (vfs_close s i).filed = omega (arith, length-vfs_close s i) in
            rw (c, reset_loop, ← slot-vfs_close s i j ne)
              (reset_loop_lem n (suc i) (vfs_close s i) j below (omega arith) m)
        | inr c ↦ rw (c, reset_loop) (reset_loop_lem n (suc i) s j below (omega arith) l)
      ]
]

-- After exec each descriptor of the table has lost its file if it had the close-on-exec flag, and
-- holds the same file if it had not.
pub vfs_reset_lem :
    (s : State) (fd : ℕ)
    → fd < length s.filed
    → (slot (vfs_reset s) fd).fd ≡ (if (slot s fd).cloexec then none else (slot s fd).fd)
unfolding vfs_reset
vfs_reset_lem s fd h = reset_loop_lem (length s.filed) 0 s fd (omega arith) (omega arith) h
