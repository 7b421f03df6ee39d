-- ===== src/Vfs/Descriptors/Counting.antt =====
-- src/syscall/vfs.c: a reference count is the number of the slots that hold the file, and of the
-- references that others have.
use foreign_linux.Base.{
  ℕ, zero, suc, ◌+◌, ◌-◌, ◌≤◌, ◌<◌, ◌≡◌, Bool, true, false, ◌||◌, Option, none, some, List, [], ◌∷◌,
  arith, ◌==◌, length, get_or, set, if◌then◌else◌, Option-cases, inl, inr,
}
use foreign_linux.Vfs.Descriptors.{
  Filed, State, empty_slot, slot, count_down, vfs_ref, vfs_release, set_slot, close_slot, vfs_close,
  filed_of,
}

abbrev pub holds : ℕ → Option ℕ → ℕ
holds f none = 0
holds f (some g) = if g == f then 1 else 0

-- The number of the slots with the file `f`.
unfoldable pub holders : ℕ → List Filed → ℕ
holders f [] = 0
holders f (d ∷ ds) = holds f d.fd + holders f ds

abbrev pub member : ℕ → List ℕ → Bool
member f [] = false
member f (g ∷ gs) = g == f || member f gs

-- `extra f` references to `f` are not in the table.
pub record IsCounted (extra : ℕ → ℕ) (s : State) : Type 0 where
  pub counted : (f : ℕ) → s.ref f ≡ holders f s.filed + extra f
  pub closed_last : (f : ℕ) → member f s.closed ≡ true → s.ref f ≡ 0

abbrev pub one_more : (ℕ → ℕ) → ℕ → ℕ → ℕ
one_more extra f g = extra g + (if f == g then 1 else 0)

pub holders-set :
    (f : ℕ) (ds : List Filed) (i : ℕ) (v : Filed)
    → i < length ds
    → holders f (set ds i v) + holds f (get_or ds i empty_slot).fd ≡ holders f ds + holds f v.fd
unfolding holders
holders-set f [] i v h = absurd (omega arith)
holders-set f (d ∷ ds) zero v h = omega arith
holders-set f (d ∷ ds) (suc i) v h = omega (arith, holders-set f ds i v (omega arith))

pub holders-ge :
    (f : ℕ) (ds : List Filed) (i : ℕ) → holds f (get_or ds i empty_slot).fd ≤ holders f ds
unfolding holders
holders-ge f [] i = omega arith
holders-ge f (d ∷ ds) zero = omega arith
holders-ge f (d ∷ ds) (suc i) = omega (arith, holders-ge f ds i)

pub filled-in_table :
    (ds : List Filed) (i f : ℕ) → (get_or ds i empty_slot).fd ≡ some f → i < length ds
filled-in_table [] i f h = ground arith
filled-in_table (d ∷ ds) zero f h = omega arith
filled-in_table (d ∷ ds) (suc i) f h = omega (arith, filled-in_table ds i f h)

count_down-pos : (n : ℕ) → 0 < n → count_down n ≡ n - 1
count_down-pos zero h = absurd (omega arith)
count_down-pos (suc n) h = omega arith

module _ {extra : ℕ → ℕ} {s : State} where
  pub vfs_ref-IsCounted :
      (f : ℕ) → IsCounted extra s → 0 < s.ref f → IsCounted (one_more extra f) (vfs_ref s f)
  unfolding vfs_ref
  vfs_ref-IsCounted f c p = record {
    counted = λ g. ground (arith, c.counted g);
    closed_last = λ g m. ground (arith, c.closed_last g);
  }

  pub vfs_release-IsCounted :
      (f : ℕ) → IsCounted (one_more extra f) s → IsCounted extra (vfs_release s f)
  unfolding vfs_release
  vfs_release-IsCounted f c = record {
    counted = λ g. ground (arith, c.counted g, c.counted f, count_down-pos (s.ref f));
    closed_last = λ g m. ground (arith, c.closed_last g, c.counted f, count_down-pos (s.ref f));
  }

  pub put-IsCounted :
      (f i : ℕ) (cloexec : Bool)
      → IsCounted (one_more extra f) s
      → i < length s.filed
      → (slot s i).fd ≡ none
      → IsCounted extra (set_slot s i (filed_of f cloexec))
  put-IsCounted f i cloexec c h e = record {
    counted = λ g. ground (arith, c.counted g, holders-set g s.filed i (filed_of f cloexec) h);
    closed_last = λ g m. ground (arith, c.closed_last g);
  }

  -- A file in a slot has a reference.
  pub filled-pos : (i f : ℕ) → IsCounted extra s → (slot s i).fd ≡ some f → 0 < s.ref f
  filled-pos i f c e = ground (arith, c.counted f, holders-ge f s.filed i)

  pub close_slot-IsCounted :
      (i f : ℕ) → IsCounted extra s → (slot s i).fd ≡ some f → IsCounted extra (close_slot s i f)
  unfolding vfs_release
  close_slot-IsCounted i f c e =
      let p : 0 < s.ref f = filled-pos i f c e in
      let h : i < length s.filed = filled-in_table s.filed i f e in
      record {
        counted = λ g. ground (
          arith,
          c.counted g,
          c.counted f,
          count_down-pos (s.ref f),
          holders-set g s.filed i empty_slot h,
        );
        closed_last =
            λ g m. ground (arith, c.closed_last g, c.closed_last f, count_down-pos (s.ref f));
      }

  pub vfs_close-IsCounted : (i : ℕ) → IsCounted extra s → IsCounted extra (vfs_close s i)
  unfolding vfs_close
  vfs_close-IsCounted i c = elim (Option-cases (slot s i).fd) [
    | inl e ↦ rw (e, vfs_close) c
    | inr (f, e) ↦ rw (e, vfs_close) (close_slot-IsCounted i f c e)
  ]

  -- The same file, or none, in the slot again.
  pub again-IsCounted :
      (i f : ℕ) (cloexec : Bool)
      → IsCounted extra s
      → (slot s i).fd ≡ some f
      → IsCounted extra (set_slot s i (filed_of f cloexec))
  again-IsCounted i f cloexec c e =
      let h : i < length s.filed = filled-in_table s.filed i f e in
      record {
        counted = λ g. ground (arith, c.counted g, holders-set g s.filed i (filed_of f cloexec) h);
        closed_last = λ g m. c.closed_last g m;
      }
