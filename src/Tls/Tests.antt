-- ===== src/Tls/Tests.antt =====
-- src/syscall/tls.c over slots that are handed out in order.
use foreign_linux.Base.{ℕ, ◌+◌, ◌<◌, ◌≡◌, refl, true, arith, ltb, ◌==◌, if◌then◌else◌}
use foreign_linux.Tls.{Win32, TlsData, tls_fork, tls_afterfork_child}
use foreign_linux.Tls.Restore.{IsWin32, tls_afterfork_child-tls_fork}
use foreign_linux.Tls.Areas.{HasSlots}

-- The number of slots that are taken, and their values.
abbrev Slots : Type 0
Slots = ℕ × (ℕ → ℕ)

abbrev windows : Win32 Slots
windows = record {
  tls_alloc = λ s. (s.0, (s.0 + 1, s.1));
  tls_free = λ k s. s;
  tls_set_value = λ k v s. (s.0, λ j. if j == k then v else s.1 j);
  tls_get_value = λ k s. s.1 k;
}

windows-IsWin32 : IsWin32 windows
windows-IsWin32 = record {
  used = λ k s. ltb k s.0;
  alloc-fresh = λ s. ground arith;
  alloc-used = λ k s. ground arith;
  alloc-get = λ k s h. refl;
  set-used = λ k j v s. refl;
  set-get = λ k v s h. ground arith;
  set-other = λ k j v s h. ground arith;
}

abbrev empty : Slots
empty = (8, λ k. 7)

abbrev started : TlsData
started = record {
  entries = λ i. 0;
  current_values = λ i. 0;
  entry_count = 0;
  kernel_entries = λ i. i;
  current_kernel_values = λ i. 0;
}

tls_afterfork_child-tls_fork_example :
    let (after, slots) = tls_afterfork_child windows (tls_fork windows started empty) empty in
    (3 < 0 → (ltb (after.entries 3) slots.0 ≡ true) × (slots.1 (after.entries 3) ≡ 7))
    × (3 < 8
        → (ltb (after.kernel_entries 3) slots.0 ≡ true) × (slots.1 (after.kernel_entries 3) ≡ 7))
unfolding windows-IsWin32
tls_afterfork_child-tls_fork_example =
    tls_afterfork_child-tls_fork windows windows-IsWin32 started empty empty 3

started-HasSlots : HasSlots windows windows-IsWin32 started empty
unfolding HasSlots
started-HasSlots = λ j h. absurd (omega arith)
