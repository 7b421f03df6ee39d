-- ===== src/Vfs/Descriptors/Slots.antt =====
-- src/syscall/vfs.c: the lowest free descriptor.
use foreign_linux.Base.{
  ℕ, zero, suc, ◌<◌, ◌≡◌, ◌≢◌, refl, Option, none, some, List, [], ◌∷◌, arith, length, get_or,
  Option-cases, inl, inr,
}
use foreign_linux.Vfs.Descriptors.{Filed, empty_slot, free_slot}

-- `i` is the first slot of the table that holds no file.
pub record IsLowest (ds : List Filed) (i : ℕ) : Type 0 where
  pub in_table : i < length ds
  pub unused : (get_or ds i empty_slot).fd ≡ none
  pub used_below : (j : ℕ) → j < i → (get_or ds j empty_slot).fd ≢ none

abbrev Lowest : List Filed → Option ℕ → Type 0
Lowest ds none = (j : ℕ) → j < length ds → (get_or ds j empty_slot).fd ≢ none
Lowest ds (some i) = IsLowest ds i

shift :
    (d : Filed) (ds : List Filed) (o : Option ℕ)
    → d.fd ≢ none
    → Lowest ds o
    → Lowest (d ∷ ds) (elim o [ none ↦ none | some i ↦ some (suc i) ])
shift d ds none n h = go
  where
    go : (j : ℕ) → j < length (d ∷ ds) → (get_or (d ∷ ds) j empty_slot).fd ≢ none
    go zero k = n
    go (suc j) k = h j (omega arith)
shift d ds (some i) n h = record {
  in_table = omega (arith, h.in_table);
  unused = h.unused;
  used_below = go;
}
  where
    go : (j : ℕ) → j < suc i → (get_or (d ∷ ds) j empty_slot).fd ≢ none
    go zero k = n
    go (suc j) k = h.used_below j (omega arith)

some-ne-none : {f : ℕ} {o : Option ℕ} → o ≡ some f → o ≢ none
some-ne-none e = λ n. ground arith

free_slot-nil : free_slot [] ≡ none
unfolding free_slot
free_slot-nil = refl

free_slot-unused : (d : Filed) (ds : List Filed) → d.fd ≡ none → free_slot (d ∷ ds) ≡ some 0
unfolding free_slot
free_slot-unused d ds e = rw (e, free_slot) refl

free_slot-used :
    (d : Filed) (ds : List Filed) (f : ℕ)
    → d.fd ≡ some f
    → free_slot (d ∷ ds) ≡ elim (free_slot ds) [ none ↦ none | some i ↦ some (suc i) ]
unfolding free_slot
free_slot-used d ds f e = rw (e, free_slot) refl

free_slot-Lowest : (ds : List Filed) → Lowest ds (free_slot ds)
free_slot-Lowest [] = rw free_slot-nil (λ j h. absurd (omega arith))
free_slot-Lowest (d ∷ ds) = elim (Option-cases d.fd) [
  | inl e ↦
      rw (free_slot-unused d ds e)
        (record { in_table = omega arith; unused = e; used_below = λ j h. absurd (omega arith) })
  | inr (f, e) ↦
      rw (free_slot-used d ds f e)
        (shift d ds (free_slot ds) (some-ne-none e) (free_slot-Lowest ds))
]

-- The search finds the first slot without a file, and finds none if each slot has one.
pub free_slot_lem :
    (ds : List Filed)
    → ((i : ℕ) → free_slot ds ≡ some i → IsLowest ds i)
      × (free_slot ds ≡ none → (j : ℕ) → j < length ds → (get_or ds j empty_slot).fd ≢ none)
free_slot_lem ds = (λ i e. rw e at (free_slot-Lowest ds), λ e. rw e at (free_slot-Lowest ds))
