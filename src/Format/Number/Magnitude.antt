-- ===== src/Format/Number/Magnitude.antt =====
-- PRINT_NUM as a whole: fill, sign and digits.
use foreign_linux.Base.{
  ℕ, ◌-◌, ◌^◌, ◌≤◌, ◌<◌, ◌≡◌, ◌≢◌, ◌⊎◌, refl, ap, true, false, List, [], ◌∷◌, ◌++◌, arith, length,
  length-append, replicate, ◌==◌, Bool-cases, inl, inr, if◌then◌else◌, length-reverse,
}
use mathlib.Core.List.{reverse, reverse-append, reverse-reverse}
use native.Mathlib.Nat.{mod-eq_of_lt}
use native.Mathlib.Decide.{ℕ_discrete}
use foreign_linux.Format.Number.{
  CType, is_signed, half, modulus, is_negative, negate, digits_loop, nbuf, print_num, int32, uint32,
  int64, uint64,
}
use foreign_linux.Format.Number.Digits.{
  index, value, IsAlphabet, digits_loop-value, digits_loop-length,
}

-- The absolute value that PRINT_NUM prints.
abbrev pub magnitude : CType → ℕ → ℕ
magnitude t x = if is_negative t x then modulus t - x else x

abbrev pub sign_of : CType → ℕ → List ℕ
sign_of t x = if is_negative t x then b'-' ∷ [] else []

-- A pattern of the type whose absolute value the type can hold.
pub record IsPrintable (t : CType) (x : ℕ) : Type 0 where
  pub in_type : x < modulus t
  pub not_least : (is_signed t ≡ false) ⊎ (x ≢ half t)

pub half-le : (t : CType) → (0 < half t) × (half t ≤ 2 ^ 63)
half-le int32 = omega arith
half-le uint32 = omega arith
half-le int64 = omega arith
half-le uint64 = omega arith

-- The digits of a number, least first.
unfoldable pub number_digits : CType → ℕ → List ℕ → ℕ → List ℕ
number_digits t base ch y = if y == 0 then b'0' ∷ [] else digits_loop t base ch 128 y

module _ {t : CType} {x : ℕ} (p : IsPrintable t x) where
  pub magnitude-lt : (magnitude t x < 2 ^ 64) × (is_negative t (magnitude t x) ≡ false)
  magnitude-lt = ground (arith, half-le t)

  negate_lem : (if is_negative t x then negate t x else x) ≡ magnitude t x
  negate_lem = ground (arith, half-le t, mod-eq_of_lt {n = modulus t - x} {m = modulus t})

  pub nbuf_lem :
      (base : ℕ) (ch : List ℕ)
      → nbuf t base ch x ≡ number_digits t base ch (magnitude t x) ++ sign_of t x
  unfolding nbuf number_digits
  nbuf_lem base ch =
      ap (λ y. (if y == 0 then b'0' ∷ [] else digits_loop t base ch 128 y) ++ sign_of t x)
        negate_lem

  number_digits-value :
      (base : ℕ) (ch : List ℕ)
      → 2 ≤ base
      → IsAlphabet base ch
      → index ch b'0' ≡ 0
      → value ch base (number_digits t base ch (magnitude t x)) ≡ magnitude t x
  unfolding number_digits value
  number_digits-value base ch two a z = elim (ℕ_discrete (magnitude t x) 0) [
    | yes e ↦ rw e (rw z (omega arith))
    | no ne ↦ ground (
      arith,
      digits_loop-value t base ch two a 128 (magnitude t x) (omega (arith, magnitude-lt.0))
          magnitude-lt.1,
    )
  ]

  number_digits-length :
      (base : ℕ) (ch : List ℕ) → 2 ≤ base → length (number_digits t base ch (magnitude t x)) ≤ 64
  unfolding number_digits
  number_digits-length base ch two = ground (
    arith,
    digits_loop-length t base ch two 128 (magnitude t x) 64 (omega (arith, magnitude-lt.0))
        magnitude-lt.1 magnitude-lt.0,
  )

  pub reverse-nbuf :
      (base : ℕ) (ch : List ℕ)
      → reverse (nbuf t base ch x)
        ≡ sign_of t x ++ reverse (number_digits t base ch (magnitude t x))
  reverse-nbuf base ch =
      rw (nbuf_lem base ch, reverse-append (number_digits t base ch (magnitude t x)) (sign_of t x))
        (elim (Bool-cases (is_negative t x)) [ inl n ↦ rw n | inr n ↦ rw n ])

  -- For every base of at least 2 whose digits `ch` tells apart, PRINT_NUM prints the fill
  -- characters that the width asks for, a minus sign exactly for a negative number, and digits that
  -- stand for its absolute value. The least value of a signed type is left out.
  pub print_num_lem :
      (base : ℕ) (ch : List ℕ) (width fillchar : ℕ)
      → 2 ≤ base
      → IsAlphabet base ch
      → index ch b'0' ≡ 0
      → (digits : List ℕ) × (print_num t base ch x width fillchar
          ≡ replicate (width - length (sign_of t x ++ digits)) fillchar ++ (sign_of t x ++ digits))
        × (value ch base (reverse digits) ≡ magnitude t x)
  unfolding print_num
  print_num_lem base ch width fillchar two a z = (
    reverse (number_digits t base ch (magnitude t x)),
    rw (← length-reverse (nbuf t base ch x), reverse-nbuf base ch),
    rw reverse-reverse (number_digits-value base ch two a z),
  )

  -- The sign and digits of every base take at most 65 of the 128 characters of `nbuf`.
  pub length-nbuf : (base : ℕ) (ch : List ℕ) → 2 ≤ base → length (nbuf t base ch x) ≤ 65
  length-nbuf base ch two = rw (nbuf_lem base ch) (
      ground (
        arith,
        number_digits-length base ch two,
        length-append (number_digits t base ch (magnitude t x)) (sign_of t x),
      ))

-- At the least value of a signed type the digits are missing: only fill and sign are printed.
pub print_num_least :
    (t : CType) (base : ℕ) (ch : List ℕ) (width fillchar : ℕ)
    → is_signed t ≡ true
    → print_num t base ch (half t) width fillchar ≡ replicate (width - 1) fillchar ++ (b'-' ∷ [])
unfolding print_num nbuf digits_loop
print_num_least int32 base ch width fillchar s = refl
print_num_least int64 base ch width fillchar s = refl
print_num_least uint32 base ch width fillchar s = cc
print_num_least uint64 base ch width fillchar s = cc
