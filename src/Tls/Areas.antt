-- ===== src/Tls/Areas.antt =====
-- src/syscall/tls.c: set_thread_area gives a new entry the base address and leaves the others alone.
use foreign_linux.Base.{
  ℕ, ◌+◌, ◌≤◌, ◌<◌, ◌≡◌, refl, true, false, none, some, ◌==◌, arith, Bool-cases, inl, inr, ==_refl,
}
use foreign_linux.Tls.{Win32, TlsData, ok, esrch, max_tls_entries, update, tls_set_thread_area}
use foreign_linux.Tls.Restore.{
  IsWin32, filled, filled-slot, filled-value, filled-other, filled-used,
}

module _ {S : Type 0} (W : Win32 S) (law : IsWin32 W) where
  -- The entries that are in use have slots that are taken.
  unfoldable pub HasSlots : TlsData → S → Type 0
  HasSlots tls s = (j : ℕ) → j < tls.entry_count → law.used (tls.entries j) s ≡ true

module _ {S : Type 0} (W : Win32 S) (law : IsWin32 W) (tls : TlsData) (s : S) (base_addr : ℕ)
    (h : HasSlots W law tls s) where
  added : ℕ → ℕ
  added = update tls.entries tls.entry_count (W.tls_alloc s).0

  added-new : added tls.entry_count ≡ (W.tls_alloc s).0
  unfolding added
  added-new = rw (==_refl tls.entry_count) refl

  added-old : (j : ℕ) → j < tls.entry_count → added j ≡ tls.entries j
  unfolding added
  added-old j k = let e : (j == tls.entry_count) ≡ false = ground arith in rw e refl

  value_new : W.tls_get_value (added tls.entry_count) (filled W law s base_addr) ≡ base_addr
  value_new = rw added-new (filled-value W law s base_addr)

  value_old :
      (j : ℕ)
      → j < tls.entry_count
      → (added j ≡ tls.entries j)
        × (W.tls_get_value (added j) (filled W law s base_addr) ≡ W.tls_get_value (tls.entries j) s)
  unfolding HasSlots
  value_old j k =
      (added-old j k, rw (added-old j k) (filled-other W law s base_addr (tls.entries j) (h j k)))

  slots_all :
      (j : ℕ) → j < tls.entry_count + 1 → law.used (added j) (filled W law s base_addr) ≡ true
  unfolding HasSlots
  slots_all j k = elim (Bool-cases (j == tls.entry_count)) [
    | inl e ↦
        let same : j ≡ tls.entry_count = ground arith in
        rw (same, added-new) (filled-slot W law s base_addr)
    | inr ne ↦
        let below : j < tls.entry_count = ground arith in
        rw (added-old j below) (filled-used W law s base_addr (tls.entries j) (h j below))
  ]

-- While Win32 does not run out of slots: with fewer than 16 entries, a call with entry number -1
-- takes the next entry and returns its number, the entry holds the base address, the entries before
-- keep their slots and values, and all of them have slots that are taken; with 16 entries it fails
-- with ESRCH and changes nothing.
pub tls_set_thread_area_lem :
    {S : Type 0} (W : Win32 S) (law : IsWin32 W) (tls : TlsData) (s : S) (base_addr : ℕ)
    → HasSlots W law tls s
    → tls.entry_count ≤ max_tls_entries
    → let (after, slots, entry, ret) = tls_set_thread_area W tls s none base_addr in
      (tls.entry_count ≡ max_tls_entries
        → (tls_set_thread_area W tls s none base_addr ≡ (tls, s, none, esrch)))
      × (tls.entry_count < max_tls_entries
          → (entry ≡ some tls.entry_count)
            × (ret ≡ ok)
            × (W.tls_get_value (after.entries tls.entry_count) slots ≡ base_addr)
            × ((j : ℕ)
                → j < tls.entry_count
                → (after.entries j ≡ tls.entries j)
                  × (W.tls_get_value (after.entries j) slots ≡ W.tls_get_value (tls.entries j) s))
            × HasSlots W law after slots)
unfolding tls_set_thread_area HasSlots filled added
tls_set_thread_area_lem W law tls s base_addr h k = (
  λ full. let e : (tls.entry_count == max_tls_entries) ≡ true = ground arith in rw e refl,
  λ room.
      let e : (tls.entry_count == max_tls_entries) ≡ false = ground arith in
      rw e (
        refl,
        refl,
        value_new W law tls s base_addr h,
        value_old W law tls s base_addr h,
        slots_all W law tls s base_addr h,
      ),
)
