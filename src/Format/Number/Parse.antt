-- ===== src/Format/Number/Parse.antt =====
-- PARSE_NUM against the decimal number that the digits stand for, and after PRINT_NUM.
use foreign_linux.Base.{
  ℕ, ◌+◌, ◌-◌, ◌*◌, ◌/◌, ◌%◌, ◌^◌, ◌≤◌, ◌<◌, ◌≡◌, refl, Bool, true, false, some, List, [], ◌∷◌,
  ◌++◌, arith, get_or, ◌==◌, All, All-append, ==_iff,
}
use native.Mathlib.Nat.{mod-eq_of_lt}
use foreign_linux.Base.Bits.{holds_below, holds_below_sound}
use mathlib.Core.List.{reverse, reverse-cons}
use foreign_linux.Format.Number.{
  CType, is_negative, lowercase, digits_loop, is_digit, parse_loop, parse_finish, parse_digits,
}
use foreign_linux.Format.Number.Digits.{digits_loop-ind}

-- The number that decimal digits continue `acc` to, as a plain number.
unfoldable pub decimal : ℕ → List ℕ → ℕ
decimal acc [] = acc
decimal acc (c ∷ s) = decimal (acc * 10 + (c - b'0')) s

abbrev pub AllDigits : List ℕ → Type 0
AllDigits = All (λ c. is_digit c ≡ true)

-- A string whose first character ends a number.
abbrev pub Ends : List ℕ → Type 0
Ends [] = Unit
Ends (c ∷ s) = is_digit c ≡ false

pub decimal-ge : (acc : ℕ) (s : List ℕ) → acc ≤ decimal acc s
unfolding decimal
decimal-ge acc [] = omega arith
decimal-ge acc (c ∷ s) = omega (arith, decimal-ge (acc * 10 + (c - b'0')) s)

-- As long as the number fits 32 bits the loop computes it.
pub parse_loop_lem :
    (value : ℕ) (s rest : List ℕ)
    → AllDigits s
    → decimal value s < 2 ^ 32
    → parse_loop value (s ++ rest) ≡ parse_loop (decimal value s) rest
unfolding parse_loop decimal
parse_loop_lem value [] rest a h = refl
parse_loop_lem value (c ∷ s) rest a h = ground (
  arith,
  decimal-ge (value * 10 + (c - b'0')) s,
  parse_loop_lem (value * 10 + (c - b'0')) s rest a.1,
  mod-eq_of_lt {n = value * 10 + c - b'0'} {m = 2 ^ 32},
)

pub parse_loop_end :
    (value : ℕ) (rest : List ℕ) → Ends rest → parse_loop value rest ≡ some (value, rest)
unfolding parse_loop
parse_loop_end value [] e = refl
parse_loop_end value (c ∷ rest) e = rw e

-- Behind the sign: a number of at least one digit.
pub parse_digits_lem :
    (t : CType) (neg : Bool) (c : ℕ) (s rest : List ℕ)
    → AllDigits (c ∷ s)
    → Ends rest
    → decimal 0 (c ∷ s) < 2 ^ 32
    → parse_digits t neg (c ∷ s ++ rest) ≡ parse_finish t neg (decimal 0 (c ∷ s), rest)
unfolding parse_digits
parse_digits_lem t neg c s rest a e h =
    rw (a.0, parse_loop_lem 0 (c ∷ s) rest a h, parse_loop_end _ rest e)

digit_char_table : holds_below 10 (λ d. get_or lowercase d 0 == b'0' + d) ≡ true
unfolding holds_below
digit_char_table = refl

digit_char : (d : ℕ) → d < 10 → get_or lowercase d 0 ≡ b'0' + d
digit_char d h = (==_iff _ _).0 (holds_below_sound 10 _ d digit_char_table h)

decimal-snoc :
    (acc c : ℕ) (s : List ℕ) → decimal acc (s ++ (c ∷ [])) ≡ decimal acc s * 10 + (c - b'0')
unfolding decimal
decimal-snoc acc c [] = refl
decimal-snoc acc c (d ∷ s) = decimal-snoc (acc * 10 + (d - b'0')) c s

-- A list of digits, least first, that print a number.
abbrev pub Prints : ℕ → List ℕ → Type 0
Prints y cs = AllDigits (reverse cs) × (decimal 0 (reverse cs) ≡ y)

Prints-cons :
    (y : ℕ) (cs : List ℕ) → Prints (y / 10) cs → Prints y (get_or lowercase (y % 10) 0 ∷ cs)
Prints-cons y cs p =
    rw (digit_char (y % 10) (omega arith), reverse-cons (b'0' + y % 10) cs)
      (
        All-append _ (reverse cs) _ p.0 (ground arith, tt),
        omega (arith, decimal-snoc 0 (b'0' + y % 10) (reverse cs), p.1),
      )

-- The digits that PRINT_NUM finds, in the order in which it prints them, stand for the number.
pub digits_loop-decimal :
    (t : CType) (y : ℕ)
    → y < 2 ^ 64
    → is_negative t y ≡ false
    → Prints y (digits_loop t 10 lowercase 128 y)
unfolding decimal
digits_loop-decimal t y h n =
    digits_loop-ind t 10 lowercase (omega arith) Prints (tt, refl)
      (λ y cs ne ih. Prints-cons y cs ih) 128 y (omega arith) n
