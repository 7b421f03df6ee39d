-- ===== src/Wcwidth/Search.antt =====
-- src/wcwidth.c: the binary search finds exactly the characters of a sorted table.
use foreign_linux.Base.{
  ℕ, zero, suc, ◌+◌, ◌-◌, ◌/◌, ◌≤◌, ◌<◌, ◌≡◌, ◌↔◌, Bool, true, false, ◌&&◌, List, [], ◌∷◌, ltb, leb,
  length, arith, Bool-cases, inl, inr,
}
use foreign_linux.Wcwidth.{Interval, entry, bisearch_loop, bisearch}

-- The intervals are not empty, they lie above `from`, and each lies above the one before.
unfoldable pub ascending : ℕ → List Interval → Bool
ascending from [] = true
ascending from (i ∷ is) = leb from i.first && (leb i.first i.last && ascending (i.last + 1) is)

abbrev pub Holds : List Interval → ℕ → ℕ → Type 0
Holds table ucs i =
    (i < length table) × ((entry table i).first ≤ ucs) × (ucs ≤ (entry table i).last)

entry-above :
    (from : ℕ) (table : List Interval) (j : ℕ)
    → ascending from table ≡ true
    → j < length table
    → (from ≤ (entry table j).first) × ((entry table j).first ≤ (entry table j).last)
unfolding ascending
entry-above from [] j a h = absurd (omega arith)
entry-above from (i ∷ is) zero a h = ground arith
entry-above from (i ∷ is) (suc j) a h = ground (arith, entry-above (i.last + 1) is j)

entry-ordered :
    (from : ℕ) (table : List Interval) (i j : ℕ)
    → ascending from table ≡ true
    → i < j
    → j < length table
    → (entry table i).last < (entry table j).first
unfolding ascending
entry-ordered from [] i j a h k = absurd (omega arith)
entry-ordered from (x ∷ xs) i zero a h k = absurd (omega arith)
entry-ordered from (x ∷ xs) zero (suc j) a h k = ground (arith, entry-above (x.last + 1) xs j)
entry-ordered from (x ∷ xs) (suc i) (suc j) a h k =
    ground (arith, entry-ordered (x.last + 1) xs i j)

mid_lower : (min top : ℕ) → min < top → min ≤ (min + (top - 1)) / 2
mid_lower min top h = omega arith

mid_upper : (min top : ℕ) → min < top → (min + (top - 1)) / 2 < top
mid_upper min top h = omega arith

module _ (table : List Interval) (from ucs : ℕ) (a : ascending from table ≡ true) where
  sound :
      (fuel min top : ℕ)
      → top ≤ length table
      → bisearch_loop ucs table fuel min top ≡ true
      → (i : ℕ) × Holds table ucs i
  unfolding bisearch_loop
  sound zero min top h e = ground arith
  sound (suc fuel) min top h e =
      let mid : ℕ = (min + (top - 1)) / 2 in
      let below : (leb top min ≡ false) = ground arith in
      let lower : (mid ≤ min + (top - 1)) × (mid < top) = ground (arith, mid_upper min top) in
      elim (Bool-cases (ltb (entry table mid).last ucs)) [
        | inl r ↦ sound fuel (mid + 1) top h (ground arith)
        | inr r ↦ elim (Bool-cases (ltb ucs (entry table mid).first)) [
          | inl l ↦ sound fuel min mid (omega (arith, lower, h)) (ground arith)
          | inr l ↦ (mid, (omega (arith, lower, h), ground arith, ground arith))
        ]
      ]

  to_right :
      (mid i : ℕ)
      → mid < length table
      → Holds table ucs i
      → (entry table mid).last < ucs
      → mid + 1 ≤ i
  to_right mid i h t r =
      ground (arith, entry-ordered from table i mid a, entry-above from table mid a h)

  to_left :
      (mid i : ℕ) → mid < length table → Holds table ucs i → ucs < (entry table mid).first → i < mid
  to_left mid i h t l =
      ground (arith, entry-ordered from table mid i a, entry-above from table mid a h)

  complete :
      (fuel min top i : ℕ)
      → top ≤ length table
      → min ≤ i
      → i < top
      → top ≤ min + fuel
      → Holds table ucs i
      → bisearch_loop ucs table fuel min top ≡ true
  unfolding bisearch_loop
  complete zero min top i h l u f t = absurd (omega arith)
  complete (suc fuel) min top i h l0 u f t =
      let mid : ℕ = (min + (top - 1)) / 2 in
      let low : min ≤ mid = mid_lower min top (omega arith) in
      let high : mid < top = mid_upper min top (omega arith) in
      elim (Bool-cases (ltb (entry table mid).last ucs)) [
        | inl r ↦
            let beyond : mid + 1 ≤ i = to_right mid i (omega arith) t (ground arith) in
            let rest = complete fuel (mid + 1) top i h beyond u (omega arith) t in ground arith
        | inr r ↦ elim (Bool-cases (ltb ucs (entry table mid).first)) [
          | inl l ↦
              let before : i < mid = to_left mid i (omega arith) t (ground arith) in
              let rest = complete fuel min mid i (omega arith) l0 before (omega arith) t in
              ground arith
          | inr l ↦ ground arith
        ]
      ]

bisearch-Holds :
    (table : List Interval) (ucs i : ℕ)
    → ascending 0 table ≡ true
    → 0 < length table
    → Holds table ucs i
    → bisearch ucs table ≡ true
unfolding bisearch
bisearch-Holds table ucs i a h t =
    let n : ℕ = length table - 1 in
    let low : (entry table 0).first ≤ ucs =
      ground (arith, entry-ordered 0 table 0 i a, entry-above 0 table 0 a) in
    let high : ucs ≤ (entry table n).last =
      ground (arith, entry-ordered 0 table i n a, entry-above 0 table n a) in
    let found =
      complete table 0 ucs a (length table) 0 (length table) i (omega arith) (omega arith)
        (ground arith) (omega arith) t in
    ground (arith, low, high, found)

-- In an ascending table the binary search answers true exactly for the characters that an interval
-- of the table holds.
pub bisearch_iff :
    (table : List Interval) (ucs : ℕ)
    → ascending 0 table ≡ true
    → 0 < length table
    → (bisearch ucs table ≡ true) ↔ ((i : ℕ) × Holds table ucs i)
unfolding bisearch
bisearch_iff table ucs a h = (
  λ e. sound table 0 ucs a (length table) 0 (length table) (omega arith) (ground arith),
  λ (i, t). bisearch-Holds table ucs i a h t,
)
