-- ===== src/Tls/Offsets.antt =====
-- src/syscall/tls.c: the offsets of the slots in the TEB.
use foreign_linux.Base.{ℕ, ◌+◌, ◌*◌, ◌≤◌, ◌≡◌, ◌⊎◌, inl, inr, ltb, arith, Bool-cases}
use foreign_linux.Tls.{Teb, tls_slot_to_offset, tls_offset_to_slot}

-- For a TEB with pointers of 4 or 8 bytes whose expansion slots lie behind the first 64, the offset of
-- a slot leads back to the slot.
pub tls_offset_to_slot-tls_slot_to_offset :
    (teb : Teb) (slot : ℕ)
    → (teb.pointer_size ≡ 4) ⊎ (teb.pointer_size ≡ 8)
    → teb.tls_slots + 64 * teb.pointer_size ≤ teb.tls_expansion_slots
    → tls_offset_to_slot teb (tls_slot_to_offset teb slot) ≡ slot
unfolding tls_offset_to_slot tls_slot_to_offset
tls_offset_to_slot-tls_slot_to_offset teb slot (inl p) h = elim (Bool-cases (ltb slot 64)) [
  | inl e ↦ rw (e, p) (ground arith)
  | inr e ↦ rw (e, p) (ground arith)
]
tls_offset_to_slot-tls_slot_to_offset teb slot (inr p) h = elim (Bool-cases (ltb slot 64)) [
  | inl e ↦ rw (e, p) (ground arith)
  | inr e ↦ rw (e, p) (ground arith)
]
