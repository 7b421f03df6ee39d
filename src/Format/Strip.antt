-- ===== src/Format/Strip.antt =====
-- strip of src/str.c: the spaces at both ends of a string are taken off in place.
use foreign_linux.Base.{
  ℕ, zero, suc, ◌+◌, ◌-◌, ◌≤◌, ◌<◌, ◌≡◌, refl, sym, ap, ◌∙◌, true, false, List, [], ◌∷◌, ◌++◌,
  append_assoc, arith, length, length-append, length-replicate, get_or, get_or-append_left,
  get_or-append_right, get_or-replicate, take-append_length, drop-replicate, ◌==◌, if◌then◌else◌,
  take, drop, replicate,
}

-- `for (l = 0; l < len; l++) if (str[l] != ' ') break`: the index from `l` on.
left_loop : List ℕ → ℕ → ℕ
left_loop [] l = l
left_loop (c ∷ s) l = let next = left_loop s (l + 1) in if c == b' ' then next else l

-- `for (r = len - 1; r >= 0; r--) if (str[r] != ' ') break`, over `n = r + 1`.
right_loop : List ℕ → ℕ → ℕ
right_loop str zero = 0
right_loop str (suc r) =
    let next = right_loop str r in if get_or str r 0 == b' ' then next else suc r

-- `r - l + 1` is counted from `r + 1`, which is not below `l`.
pub strip : List ℕ → List ℕ
unfolding left_loop right_loop
strip str =
    let l = left_loop str 0 in
    if l == length str then [] else take (right_loop str (length str) - l) (drop l str)

abbrev spaces : ℕ → List ℕ
spaces n = replicate n b' '

-- A string that neither begins nor ends with a space.
pub record IsTrimmed (s : List ℕ) : Type 0 where
  pub nonempty : 0 < length s
  pub first : (get_or s 0 0 == b' ') ≡ false
  pub last : (get_or s (length s - 1) 0 == b' ') ≡ false

left_loop-spaces : (n l : ℕ) (s : List ℕ) → left_loop (spaces n ++ s) l ≡ left_loop s (l + n)
unfolding left_loop
left_loop-spaces zero l s = ap (left_loop s) (omega arith)
left_loop-spaces (suc n) l s = left_loop-spaces n (l + 1) s ∙ ap (left_loop s) (omega arith)

left_loop-stops :
    (l : ℕ) (s rest : List ℕ)
    → 0 < length s
    → (get_or s 0 0 == b' ') ≡ false
    → left_loop (s ++ rest) l ≡ l
unfolding left_loop
left_loop-stops l [] rest h f = absurd (omega arith)
left_loop-stops l (c ∷ s) rest h f = rw f

right_loop-space :
    (str : List ℕ) (r : ℕ)
    → (get_or str r 0 == b' ') ≡ true
    → right_loop str (suc r) ≡ right_loop str r
unfolding right_loop
right_loop-space str r h = rw h

right_loop-other :
    (str : List ℕ) (r : ℕ) → (get_or str r 0 == b' ') ≡ false → right_loop str (suc r) ≡ suc r
unfolding right_loop
right_loop-other str r h = rw h

right_loop-spaces :
    (s : List ℕ) (b n : ℕ)
    → n ≤ b
    → right_loop (s ++ spaces b) (length s + n) ≡ right_loop (s ++ spaces b) (length s)
right_loop-spaces s b zero h = ap (right_loop (s ++ spaces b)) (omega arith)
right_loop-spaces s b (suc n) h =
    let e : length s + suc n ≡ suc (length s + n) = omega arith in
    rw e (
      right_loop-space (s ++ spaces b) (length s + n)
        (rw (get_or-append_right s (spaces b) n 0, get_or-replicate {A = ℕ} b n b' ' 0 h) refl)
      ∙ right_loop-spaces s b n (omega arith))

right_loop-stops :
    (s rest : List ℕ)
    → 0 < length s
    → (get_or s (length s - 1) 0 == b' ') ≡ false
    → right_loop (s ++ rest) (length s) ≡ length s
right_loop-stops s rest h f =
    let e : length s ≡ suc (length s - 1) = omega arith in
    ap (right_loop (s ++ rest)) e
    ∙ right_loop-other (s ++ rest) (length s - 1)
        (rw (get_or-append_left s rest (length s - 1) 0 (omega arith)) f)
    ∙ sym e

module _ (a b : ℕ) (s : List ℕ) (t : IsTrimmed s) where
  padded : List ℕ
  padded = (spaces a ++ s) ++ spaces b

  length-left : length (spaces a ++ s) ≡ a + length s
  length-left = omega (arith, length-append (spaces a) s, length-replicate {A = ℕ} a b' ')

  length-padded : length padded ≡ length (spaces a ++ s) + b
  unfolding padded
  length-padded =
      omega (arith, length-append (spaces a ++ s) (spaces b), length-replicate {A = ℕ} b b' ')

  left_loop-padded : left_loop padded 0 ≡ a
  unfolding padded
  left_loop-padded =
      ap (λ l. left_loop l 0) (append_assoc (spaces a) s (spaces b))
      ∙ left_loop-spaces a 0 (s ++ spaces b)
      ∙ left_loop-stops (0 + a) s (spaces b) t.nonempty t.first
      ∙ omega arith

  last-left : get_or (spaces a ++ s) (length (spaces a ++ s) - 1) 0 ≡ get_or s (length s - 1) 0
  last-left =
      let e : length (spaces a ++ s) - 1 ≡ length (spaces a) + (length s - 1) =
        omega (arith, length-left, length-replicate {A = ℕ} a b' ', t.nonempty) in
      rw e (get_or-append_right (spaces a) s (length s - 1) 0)

  right_loop-padded : right_loop padded (length padded) ≡ a + length s
  unfolding padded
  right_loop-padded =
      ap (right_loop padded) length-padded
      ∙ right_loop-spaces (spaces a ++ s) b b (omega arith)
      ∙ right_loop-stops (spaces a ++ s) (spaces b) (omega (arith, length-left, t.nonempty))
          (rw last-left t.last)
      ∙ length-left

  middle : take (a + length s - a) (drop a padded) ≡ s
  unfolding padded
  middle =
      let e : a + length s - a ≡ length s = omega arith in
      rw (e, append_assoc (spaces a) s (spaces b), drop-replicate a b' ' (s ++ spaces b))
        (take-append_length s (spaces b))

  inside : (a == length padded) ≡ false
  inside = ground (arith, length-padded, length-left, t.nonempty)

  strip-padded : strip padded ≡ s
  unfolding strip
  strip-padded = rw (left_loop-padded, right_loop-padded, inside) middle

left_loop-all : (n l : ℕ) → left_loop (spaces n) l ≡ l + n
unfolding left_loop
left_loop-all zero l = omega arith
left_loop-all (suc n) l = omega (arith, left_loop-all n (l + 1))

strip-spaces : (n : ℕ) → strip (spaces n) ≡ []
unfolding strip
strip-spaces n = ground (arith, left_loop-all n 0, length-replicate {A = ℕ} n b' ')

-- The spaces on both sides of a trimmed string are taken off, whatever their number, and a string
-- of spaces alone becomes empty.
pub strip_lem :
    (a b : ℕ)
    → ((s : List ℕ) → IsTrimmed s → strip (replicate a b' ' ++ s ++ replicate b b' ') ≡ s)
      × (strip (replicate a b' ') ≡ [])
unfolding padded
strip_lem a b = (strip-padded a b, strip-spaces a)
