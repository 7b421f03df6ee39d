-- ===== src/Tls.antt =====
-- src/syscall/tls.c: thread areas over the thread local slots of Win32, their way through fork, and
-- the offsets of the slots. Win32's slots are a parameter `W`.
pub mod Tests
pub mod Restore
pub mod Areas
pub mod Offsets
use foreign_linux.Base.{
  ℕ, zero, suc, ◌+◌, ◌-◌, ◌*◌, ◌/◌, Option, none, some, ltb, ◌==◌, if◌then◌else◌,
}

-- TlsAlloc, TlsFree, TlsSetValue and TlsGetValue over the slots `S` of a process.
pub record Win32 (S : Type 0) : Type 0 where
  pub tls_alloc : S → ℕ × S
  pub tls_free : ℕ → S → S
  pub tls_set_value : ℕ → ℕ → S → S
  pub tls_get_value : ℕ → S → ℕ

pub record TlsData : Type 0 where
  pub entries : ℕ → ℕ
  pub current_values : ℕ → ℕ
  pub entry_count : ℕ
  pub kernel_entries : ℕ → ℕ
  pub current_kernel_values : ℕ → ℕ

pub data Ret : Type 0 where
  ok : Ret
  esrch einval : Ret

abbrev pub max_tls_entries : ℕ
max_tls_entries = 16

-- TLS_KERNEL_ENTRY_COUNT of src/syscall/tls.h.
abbrev pub kernel_entry_count : ℕ
kernel_entry_count = 8

abbrev pub update : (ℕ → ℕ) → ℕ → ℕ → ℕ → ℕ
update f i v j = if j == i then v else f j

-- `n` more rounds of a loop, the first one for `i`.
module _ {S : Type 0} (W : Win32 S) where
  pub alloc_loop : (n i : ℕ) → (ℕ → ℕ) → S → (ℕ → ℕ) × S
  alloc_loop zero i entries s = (entries, s)
  alloc_loop (suc n) i entries s =
      let (slot, s1) = W.tls_alloc s in alloc_loop n (suc i) (update entries i slot) s1

  pub free_loop : (n i : ℕ) → (ℕ → ℕ) → S → S
  free_loop zero i entries s = s
  free_loop (suc n) i entries s = free_loop n (suc i) entries (W.tls_free (entries i) s)

  pub save_loop : (n i : ℕ) → (entries values : ℕ → ℕ) → S → ℕ → ℕ
  save_loop zero i entries values s = values
  save_loop (suc n) i entries values s =
      save_loop n (suc i) entries (update values i (W.tls_get_value (entries i) s)) s

  pub restore_loop : (n i : ℕ) → (entries values : ℕ → ℕ) → S → (ℕ → ℕ) × S
  restore_loop zero i entries values s = (entries, s)
  restore_loop (suc n) i entries values s =
      let (slot, s1) = W.tls_alloc s in
      restore_loop n (suc i) (update entries i slot) values (W.tls_set_value slot (values i) s1)

  -- The memory of `mm_static_alloc` is filled with 0.
  pub tls_init : S → TlsData × S
  unfolding alloc_loop
  tls_init s =
      let (kernel, s1) = alloc_loop kernel_entry_count 0 (λ i. 0) s in
      (
        record {
          entries = λ i. 0;
          current_values = λ i. 0;
          entry_count = 0;
          kernel_entries = kernel;
          current_kernel_values = λ i. 0;
        },
        s1,
      )

  pub tls_reset : TlsData → S → TlsData × S
  unfolding free_loop
  tls_reset tls s = (record tls { entry_count = 0 }, free_loop tls.entry_count 0 tls.entries s)

  pub tls_shutdown : TlsData → S → S
  unfolding free_loop
  tls_shutdown tls s =
      free_loop kernel_entry_count 0 tls.kernel_entries (free_loop tls.entry_count 0 tls.entries s)

  pub tls_fork : TlsData → S → TlsData
  unfolding save_loop
  tls_fork tls s = record tls {
    current_values = save_loop tls.entry_count 0 tls.entries tls.current_values s;
    current_kernel_values =
        save_loop kernel_entry_count 0 tls.kernel_entries tls.current_kernel_values s;
  }

  -- The child starts with the parent's `struct tls_data` and with slots of its own.
  pub tls_afterfork_child : TlsData → S → TlsData × S
  unfolding restore_loop
  tls_afterfork_child tls s =
      let (user, s1) = restore_loop tls.entry_count 0 tls.entries tls.current_values s in
      let (kernel, s2) =
        restore_loop kernel_entry_count 0 tls.kernel_entries tls.current_kernel_values s1 in
      (record tls { entries = user; kernel_entries = kernel }, s2)

  -- `entry_number` is `none` for -1; the result has the one that the caller reads back.
  pub tls_set_thread_area :
      TlsData → S → (entry_number : Option ℕ) → (base_addr : ℕ) → TlsData × S × Option ℕ × Ret
  tls_set_thread_area tls s none base_addr =
      let (slot, s1) = W.tls_alloc s in
      if tls.entry_count == max_tls_entries then (tls, s, none, esrch) else (
        record tls {
          entries = update tls.entries tls.entry_count slot;
          entry_count = tls.entry_count + 1;
        },
        W.tls_set_value slot base_addr s1,
        some tls.entry_count,
        ok,
      )
  tls_set_thread_area tls s (some entry) base_addr =
      (tls, W.tls_set_value (tls.entries entry) base_addr s, some entry, ok)

pub data ArchCode : Type 0 where
  arch_set_fs arch_get_fs arch_set_gs arch_get_gs unknown_code : ArchCode

pub arch_prctl : ArchCode → (addr : ℕ) → Ret
arch_prctl arch_set_fs addr = einval
arch_prctl arch_get_fs addr = einval
arch_prctl arch_set_gs addr = einval
arch_prctl arch_get_gs addr = einval
arch_prctl unknown_code addr = einval

-- The layout of the TEB, which Win32 fixes.
pub record Teb : Type 0 where
  pub tls_slots : ℕ
  pub tls_expansion_slots : ℕ
  pub pointer_size : ℕ

module _ (teb : Teb) where
  pub tls_slot_to_offset : ℕ → ℕ
  tls_slot_to_offset slot =
      if ltb slot 64
      then teb.tls_slots + slot * teb.pointer_size
      else teb.tls_expansion_slots + (slot - 64) * teb.pointer_size

  pub tls_offset_to_slot : ℕ → ℕ
  tls_offset_to_slot offset =
      if ltb offset (teb.tls_slots + 64 * teb.pointer_size)
      then (offset - teb.tls_slots) / teb.pointer_size
      else (offset - teb.tls_expansion_slots) / teb.pointer_size + 64

  pub tls_kernel_entry_to_offset : TlsData → ℕ → ℕ
  unfolding tls_slot_to_offset
  tls_kernel_entry_to_offset tls entry = tls_slot_to_offset (tls.kernel_entries entry)

  pub tls_user_entry_to_offset : TlsData → ℕ → ℕ
  unfolding tls_slot_to_offset
  tls_user_entry_to_offset tls entry = tls_slot_to_offset (tls.entries entry)
