-- ===== src/Tls/Restore.antt =====
-- src/syscall/tls.c: the values of the slots survive a fork.
use foreign_linux.Base.{
  ℕ, zero, suc, ◌+◌, ◌≤◌, ◌<◌, ◌≡◌, refl, sym, ap, ◌∙◌, Bool, true, false, ◌==◌, ◌||◌, arith,
  Bool-cases, inl, inr, ==_refl,
}
use foreign_linux.Tls.{
  Win32, TlsData, kernel_entry_count, update, save_loop, restore_loop, tls_fork,
  tls_afterfork_child,
}

-- What the documentation of Win32 says of the slots, while it does not run out of them: `used`
-- tells which slots are taken.
pub record IsWin32 {S : Type 0} (W : Win32 S) : Type 0 where
  pub used : ℕ → S → Bool
  pub alloc-fresh : (s : S) → used (W.tls_alloc s).0 s ≡ false
  pub alloc-used :
      (k : ℕ) (s : S) → used k (W.tls_alloc s).1 ≡ (used k s || (k == (W.tls_alloc s).0))
  pub alloc-get :
      (k : ℕ) (s : S) → used k s ≡ true → W.tls_get_value k (W.tls_alloc s).1 ≡ W.tls_get_value k s
  pub set-used : (k j v : ℕ) (s : S) → used k (W.tls_set_value j v s) ≡ used k s
  pub set-get : (k v : ℕ) (s : S) → used k s ≡ true → W.tls_get_value k (W.tls_set_value k v s) ≡ v
  pub set-other :
      (k j v : ℕ) (s : S)
      → (k == j) ≡ false
      → W.tls_get_value k (W.tls_set_value j v s) ≡ W.tls_get_value k s

module _ {S : Type 0} (W : Win32 S) (law : IsWin32 W) where
  -- One round: a new slot with a value in it.
  unfoldable pub filled : S → ℕ → S
  filled s v = W.tls_set_value (W.tls_alloc s).0 v (W.tls_alloc s).1

  pub filled-used : (s : S) (v k : ℕ) → law.used k s ≡ true → law.used k (filled s v) ≡ true
  unfolding filled
  filled-used s v k h =
      law.set-used k (W.tls_alloc s).0 v (W.tls_alloc s).1 ∙ law.alloc-used k s ∙ rw h refl

  pub filled-slot : (s : S) (v : ℕ) → law.used (W.tls_alloc s).0 (filled s v) ≡ true
  unfolding filled
  filled-slot s v =
      let slot = (W.tls_alloc s).0 in
      law.set-used slot slot v (W.tls_alloc s).1
      ∙ law.alloc-used slot s
      ∙ rw (law.alloc-fresh s) (==_refl slot)

  pub filled-value : (s : S) (v : ℕ) → W.tls_get_value (W.tls_alloc s).0 (filled s v) ≡ v
  unfolding filled
  filled-value s v =
      let slot = (W.tls_alloc s).0 in
      law.set-get slot v (W.tls_alloc s).1
        (law.alloc-used slot s ∙ rw (law.alloc-fresh s) (==_refl slot))

  fresh-other : (s : S) (k : ℕ) → law.used k s ≡ true → (k == (W.tls_alloc s).0) ≡ false
  fresh-other s k h = elim (Bool-cases (k == (W.tls_alloc s).0)) [
    | inl e ↦
        let same : k ≡ (W.tls_alloc s).0 = ground arith in
        let c : true ≡ false = sym h ∙ ap (λ x. law.used x s) same ∙ law.alloc-fresh s in
        ground arith
    | inr ne ↦ ne
  ]

  pub filled-other :
      (s : S) (v k : ℕ) → law.used k s ≡ true → W.tls_get_value k (filled s v) ≡ W.tls_get_value k s
  unfolding filled
  filled-other s v k h =
      law.set-other k (W.tls_alloc s).0 v (W.tls_alloc s).1 (fresh-other s k h)
      ∙ law.alloc-get k s h

  restore_loop-used :
      (n i : ℕ) (entries values : ℕ → ℕ) (s : S) (k : ℕ)
      → law.used k s ≡ true
      → law.used k (restore_loop W n i entries values s).1 ≡ true
  unfolding restore_loop filled
  restore_loop-used zero i entries values s k h = h
  restore_loop-used (suc n) i entries values s k h =
      restore_loop-used n (suc i) (update entries i (W.tls_alloc s).0) values (filled s (values i))
        k (filled-used s (values i) k h)

  restore_loop-kept :
      (n i : ℕ) (entries values : ℕ → ℕ) (s : S) (k : ℕ)
      → law.used k s ≡ true
      → W.tls_get_value k (restore_loop W n i entries values s).1 ≡ W.tls_get_value k s
  unfolding restore_loop filled
  restore_loop-kept zero i entries values s k h = refl
  restore_loop-kept (suc n) i entries values s k h =
      restore_loop-kept n (suc i) (update entries i (W.tls_alloc s).0) values (filled s (values i))
        k (filled-used s (values i) k h)
      ∙ filled-other s (values i) k h

  restore_loop-before :
      (n i : ℕ) (entries values : ℕ → ℕ) (s : S) (j : ℕ)
      → j < i
      → (restore_loop W n i entries values s).0 j ≡ entries j
  unfolding restore_loop filled
  restore_loop-before zero i entries values s j h = refl
  restore_loop-before (suc n) i entries values s j h =
      restore_loop-before n (suc i) (update entries i (W.tls_alloc s).0) values
        (filled s (values i)) j (omega arith)
      ∙ ground arith

  restore_loop-at :
      (n i : ℕ) (entries values : ℕ → ℕ) (s : S)
      → (restore_loop W (suc n) i entries values s).0 i ≡ (W.tls_alloc s).0
  unfolding restore_loop filled
  restore_loop-at n i entries values s =
      restore_loop-before n (suc i) (update entries i (W.tls_alloc s).0) values
        (filled s (values i)) i (omega arith)
      ∙ ground arith

  -- The entry `j` gets a slot that is taken and holds its value.
  pub restore_loop_lem :
      (n i : ℕ) (entries values : ℕ → ℕ) (s : S) (j : ℕ)
      → i ≤ j
      → j < i + n
      → let (after, s') = restore_loop W n i entries values s in
        (law.used (after j) s' ≡ true) × (W.tls_get_value (after j) s' ≡ values j)
  unfolding restore_loop filled
  restore_loop_lem zero i entries values s j h k = absurd (omega arith)
  restore_loop_lem (suc n) i entries values s j h k = elim (Bool-cases (i == j)) [
    | inl e ↦
        let same : i ≡ j = ground arith in
        let at_i : (restore_loop W (suc n) i entries values s).0 i ≡ (W.tls_alloc s).0 =
          restore_loop-at n i entries values s in
        let rest : ℕ → ℕ = update entries i (W.tls_alloc s).0 in
        rw (← same, at_i)
          (
            restore_loop-used n (suc i) rest values (filled s (values i)) (W.tls_alloc s).0
                (filled-slot s (values i)),
            restore_loop-kept n (suc i) rest values (filled s (values i)) (W.tls_alloc s).0
                  (filled-slot s (values i))
                ∙ filled-value s (values i),
          )
    | inr ne ↦
        restore_loop_lem n (suc i) (update entries i (W.tls_alloc s).0) values (filled s (values i))
          j (ground arith) (omega arith)
  ]

  save_loop-before :
      (n i : ℕ) (entries values : ℕ → ℕ) (s : S) (j : ℕ)
      → j < i
      → save_loop W n i entries values s j ≡ values j
  unfolding save_loop
  save_loop-before zero i entries values s j h = refl
  save_loop-before (suc n) i entries values s j h =
      save_loop-before n (suc i) entries (update values i (W.tls_get_value (entries i) s)) s j
        (omega arith)
      ∙ ground arith

  save_loop_lem :
      (n i : ℕ) (entries values : ℕ → ℕ) (s : S) (j : ℕ)
      → i ≤ j
      → j < i + n
      → save_loop W n i entries values s j ≡ W.tls_get_value (entries j) s
  unfolding save_loop
  save_loop_lem zero i entries values s j h k = absurd (omega arith)
  save_loop_lem (suc n) i entries values s j h k = elim (Bool-cases (i == j)) [
    | inl e ↦
        let same : i ≡ j = ground arith in
        save_loop-before n (suc i) entries (update values i (W.tls_get_value (entries i) s)) s j
          (omega arith)
        ∙ rw (← same, ==_refl i) refl
    | inr ne ↦
        save_loop_lem n (suc i) entries (update values i (W.tls_get_value (entries i) s)) s j
          (ground arith) (omega arith)
  ]

  -- Both loops of the child, with `n` user entries and `m` kernel entries.
  loops_of_fork :
      (n m : ℕ) (user user_values kernel kernel_values : ℕ → ℕ) (parent child : S) (j : ℕ)
      → let (a, s1) = restore_loop W n 0 user (save_loop W n 0 user user_values parent) child in
        let (b, s2) = restore_loop W m 0 kernel (save_loop W m 0 kernel kernel_values parent) s1 in
        (j < n
          → (law.used (a j) s2 ≡ true)
            × (W.tls_get_value (a j) s2 ≡ W.tls_get_value (user j) parent))
        × (j < m
            → (law.used (b j) s2 ≡ true)
              × (W.tls_get_value (b j) s2 ≡ W.tls_get_value (kernel j) parent))
  loops_of_fork n m user user_values kernel kernel_values parent child j =
      let v : ℕ → ℕ = save_loop W n 0 user user_values parent in
      let w : ℕ → ℕ = save_loop W m 0 kernel kernel_values parent in
      let a : ℕ → ℕ = (restore_loop W n 0 user v child).0 in
      let s1 : S = (restore_loop W n 0 user v child).1 in
      (
        λ h.
            let r = restore_loop_lem n 0 user v child j (omega arith) (omega arith) in
            (
              restore_loop-used m 0 kernel w s1 (a j) r.0,
              restore_loop-kept m 0 kernel w s1 (a j) r.0
                  ∙ r.1
                  ∙ save_loop_lem n 0 user user_values parent j (omega arith) (omega arith),
            ),
        λ h.
            let r = restore_loop_lem m 0 kernel w s1 j (omega arith) (omega arith) in
            (
              r.0,
              r.1 ∙ save_loop_lem m 0 kernel kernel_values parent j (omega arith) (omega arith),
            ),
      )

-- While Win32 does not run out of slots: after a fork each user entry and each kernel entry of the
-- child has a slot that is taken and holds what the parent's entry held, whatever the child's slots
-- were before.
pub tls_afterfork_child-tls_fork :
    {S : Type 0} (W : Win32 S) (law : IsWin32 W) (tls : TlsData) (parent child : S) (j : ℕ)
    → let (after, slots) = tls_afterfork_child W (tls_fork W tls parent) child in
      (j < tls.entry_count
        → (law.used (after.entries j) slots ≡ true)
          × (W.tls_get_value (after.entries j) slots ≡ W.tls_get_value (tls.entries j) parent))
      × (j < kernel_entry_count
          → (law.used (after.kernel_entries j) slots ≡ true)
            × (W.tls_get_value (after.kernel_entries j) slots
                ≡ W.tls_get_value (tls.kernel_entries j) parent))
unfolding tls_afterfork_child tls_fork
tls_afterfork_child-tls_fork W law tls parent child j =
    loops_of_fork W law tls.entry_count kernel_entry_count tls.entries tls.current_values
      tls.kernel_entries tls.current_kernel_values parent child j
