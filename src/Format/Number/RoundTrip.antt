-- ===== src/Format/Number/RoundTrip.antt =====
-- A number that PRINT_NUM has printed, through PARSE_NUM.
use foreign_linux.Base.{
  ℕ, ◌+◌, ◌-◌, ◌*◌, ◌%◌, ◌^◌, ◌≤◌, ◌<◌, ◌≡◌, ◌≢◌, refl, ◌∙◌, true, false, some, List, [], ◌∷◌, ◌++◌,
  arith, replicate, sym, Bool-cases, inl, inr,
}
use native.Mathlib.Decide.{ℕ_discrete}
use mathlib.Core.List.{reverse}
use foreign_linux.Format.Number.{
  CType, is_signed, half, is_negative, lowercase, print_num, is_digit, parse_loop, parse_finish,
  parse_digits, parse_num, uint32,
}
use foreign_linux.Format.Number.Magnitude.{
  magnitude, sign_of, IsPrintable, magnitude-lt, number_digits, reverse-nbuf,
}
use foreign_linux.Format.Number.Parse.{
  decimal, AllDigits, Ends, parse_loop_lem, parse_digits_lem, digits_loop-decimal,
}

-- The digits that are printed for a number, in print order.
shown : CType → ℕ → List ℕ
shown t y = reverse (number_digits t 10 lowercase y)

no_fill : (k fillchar : ℕ) (l : List ℕ) → replicate (0 - k) fillchar ++ l ≡ l
no_fill k fillchar l = let e : 0 - k ≡ 0 = omega arith in rw e

print_num-shown :
    {t : CType} {x : ℕ} (fillchar : ℕ)
    → IsPrintable t x
    → print_num t 10 lowercase x 0 fillchar ≡ sign_of t x ++ shown t (magnitude t x)
unfolding print_num shown
print_num-shown fillchar p = no_fill _ fillchar _ ∙ reverse-nbuf p 10 lowercase

shown_lem :
    (t : CType) (y : ℕ)
    → y < 2 ^ 64
    → is_negative t y ≡ false
    → AllDigits (shown t y) × (decimal 0 (shown t y) ≡ y)
unfolding shown number_digits decimal
shown_lem t y h n = elim (ℕ_discrete y 0) [
  | yes e ↦ rw e ((refl, tt), refl)
  | no ne ↦ ground (arith, digits_loop-decimal t y h n)
]

ne_nil : (y : ℕ) (l : List ℕ) → decimal 0 l ≡ y → y ≢ 0 → l ≢ []
unfolding decimal
ne_nil y [] e ne = absurd (ne (sym e))
ne_nil y (c ∷ l) e ne = ground arith

shown-ne-nil : (t : CType) (y : ℕ) → y < 2 ^ 64 → is_negative t y ≡ false → shown t y ≢ []
unfolding shown number_digits
shown-ne-nil t y h n = elim (ℕ_discrete y 0) [
  | yes e ↦ rw e (ground arith)
  | no ne ↦ ne_nil y (shown t y) (shown_lem t y h n).1 ne
]

pub unsigned_digits :
    (t : CType) (s rest : List ℕ)
    → s ≢ []
    → AllDigits s
    → Ends rest
    → decimal 0 s < 2 ^ 32
    → (parse_num t (s ++ rest) ≡ parse_finish t false (decimal 0 s, rest))
      × (is_signed t ≡ true
          → parse_num t (b'-' ∷ s ++ rest) ≡ parse_finish t true (decimal 0 s, rest))
unfolding parse_num
unsigned_digits t [] rest ne a e h = absurd (ne refl)
unsigned_digits t (c ∷ s) rest ne a e h = (
  ground (arith, parse_digits_lem t false c s rest a e h),
  λ sg. rw sg (parse_digits_lem t true c s rest a e h),
)

signed : (t : CType) (x : ℕ) → is_negative t x ≡ true → is_signed t ≡ true
signed t x n = ground arith

module _ {t : CType} {x : ℕ} (rest : List ℕ) (w : half t ≡ 2 ^ 31) (p : IsPrintable t x)
    (e : Ends rest) where
  shown_parts :
      (parse_num t (shown t (magnitude t x) ++ rest) ≡ parse_finish t false (magnitude t x, rest))
      × (is_signed t ≡ true
          → parse_num t (b'-' ∷ shown t (magnitude t x) ++ rest)
            ≡ parse_finish t true (magnitude t x, rest))
  shown_parts =
      let small = magnitude-lt p in
      let s = shown_lem t (magnitude t x) small.0 small.1 in
      rw s.1 at (
        unsigned_digits t (shown t (magnitude t x)) rest
          (shown-ne-nil t (magnitude t x) small.0 small.1) s.0 e (rw s.1 (ground arith)))

  finish_parts :
      (is_negative t x ≡ true → parse_finish t true (magnitude t x, rest) ≡ some (x, rest))
      × (is_negative t x ≡ false → parse_finish t false (magnitude t x, rest) ≡ some (x, rest))
  unfolding parse_finish
  finish_parts = (λ n. ground arith, λ n. ground arith)

  parse_num-sign_of :
      parse_num t ((sign_of t x ++ shown t (magnitude t x)) ++ rest) ≡ some (x, rest)
  parse_num-sign_of = elim (Bool-cases (is_negative t x)) [
    | inl n ↦
        let sign : sign_of t x ≡ b'-' ∷ [] = rw n in
        rw sign (shown_parts.1 (signed t x n) ∙ finish_parts.0 n)
    | inr n ↦ let sign : sign_of t x ≡ [] = rw n in rw sign (shown_parts.0 ∙ finish_parts.1 n)
  ]

-- An unsigned number that fits, before anything but a digit.
pub parse_unsigned :
    (s rest : List ℕ)
    → s ≢ []
    → AllDigits s
    → Ends rest
    → decimal 0 s < 2 ^ 32
    → parse_num uint32 (s ++ rest) ≡ some (decimal 0 s, rest)
unfolding parse_finish
parse_unsigned s rest ne a e h = (unsigned_digits uint32 s rest ne a e h).0

-- A digit that takes the number past 32 bits is noticed only where the wrapped number is smaller.
pub parse_wraps :
    (s : List ℕ) (d : ℕ)
    → s ≢ []
    → AllDigits s
    → is_digit d ≡ true
    → decimal 0 s < 2 ^ 32
    → decimal 0 s ≤ (decimal 0 s * 10 + d - b'0') % 2 ^ 32
    → parse_num uint32 (s ++ (d ∷ [])) ≡ some ((decimal 0 s * 10 + d - b'0') % 2 ^ 32, [])
unfolding parse_num parse_digits parse_finish parse_loop
parse_wraps [] d ne a t h k = absurd (ne refl)
parse_wraps (c ∷ s) d ne a t h k = ground (arith, parse_loop_lem 0 (c ∷ s) (d ∷ []))

-- A 32-bit number that PRINT_NUM prints in decimal, without fill and before anything but a digit,
-- is parsed back to the same bits, and what follows is left. The least `int32_t` is left out.
pub parse_num-print_num :
    (t : CType) (x fillchar : ℕ) (rest : List ℕ)
    → half t ≡ 2 ^ 31
    → IsPrintable t x
    → Ends rest
    → parse_num t (print_num t 10 lowercase x 0 fillchar ++ rest) ≡ some (x, rest)
parse_num-print_num t x fillchar rest w p e =
    rw (print_num-shown fillchar p) (parse_num-sign_of rest w p e)
