-- ===== src/Wcwidth/Widths.antt =====
-- src/wcwidth.c: the four classes of width.
use foreign_linux.Base.{
  ℕ, ◌≤◌, ◌<◌, ◌≡◌, refl, true, false, ltb, leb, ◌==◌, length, if◌then◌else◌, arith, Bool-cases,
  inl, inr, ap, ◌∙◌,
}
use foreign_linux.Base.Int.{pos}
use foreign_linux.Wcwidth.{combining, bisearch, wcwidth, is_wide, width}
use foreign_linux.Wcwidth.Search.{ascending, Holds, bisearch_iff}

combining-ascending : ascending 0 combining ≡ true
unfolding ascending combining
combining-ascending = refl

combining-nonempty : 0 < length combining
unfolding combining
combining-nonempty = omega arith

width-found : (ucs : ℕ) → 160 ≤ ucs → width ucs true ≡ pos 0
width-found ucs h = ground arith

width-missed : (ucs : ℕ) → 160 ≤ ucs → width ucs false ≡ (if is_wide ucs then pos 2 else pos 1)
width-missed ucs h =
    let z : (ucs == 0) ≡ false = ground arith in
    let c : ltb ucs 32 ≡ false = ground arith in
    let d : ltb ucs 160 ≡ false = ground arith in
    let p : leb 127 ucs ≡ true = ground arith in rw (z, c, d, p) refl

-- A character from 0xa0 on that an interval of the table holds is 0 columns wide, and every other
-- one is 2 columns wide in the East Asian wide ranges and 1 column outside them.
pub wcwidth_lem :
    (ucs : ℕ)
    → 160 ≤ ucs
    → ((i : ℕ) → Holds combining ucs i → wcwidth ucs ≡ pos 0)
      × (¬ ((i : ℕ) × Holds combining ucs i) → wcwidth ucs ≡ (if is_wide ucs then pos 2 else pos 1))
unfolding wcwidth
wcwidth_lem ucs h =
    let (found, held) = bisearch_iff combining ucs combining-ascending combining-nonempty in
    (
      λ i t. ap (width ucs) (held (i, t)) ∙ width-found ucs h,
      λ n. elim (Bool-cases (bisearch ucs combining)) [
        | inl e ↦ absurd (n (found e))
        | inr e ↦ ap (width ucs) e ∙ width-missed ucs h
      ],
    )
