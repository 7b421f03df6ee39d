-- ===== src/Format/Number.antt =====
-- PRINT_NUM of src/vsprintf.c and PARSE_NUM of src/vsscanf.c: one number to digits and back.
-- A number is its bit pattern. C leaves `-y` open at the least value of a signed type; the model
-- takes the two's complement wrap.
pub mod Digits
pub mod Magnitude
pub mod Parse
pub mod RoundTrip
use foreign_linux.Base.{
  ℕ, zero, suc, ◌+◌, ◌-◌, ◌*◌, ◌/◌, ◌%◌, ◌^◌, Bool, true, false, ◌&&◌, not, Option, none, some,
  List, [], ◌∷◌, ◌++◌, ltb, leb, ◌==◌, if◌then◌else◌, length, get_or, replicate,
}
use mathlib.Core.List.{reverse}

-- The types that the two files print and parse.
pub data CType : Type 0 where
  int32 uint32 int64 uint64 : CType

abbrev pub is_signed : CType → Bool
is_signed int32 = true
is_signed int64 = true
is_signed _ = false

abbrev pub half : CType → ℕ
half int32 = 2 ^ 31
half uint32 = 2 ^ 31
half int64 = 2 ^ 63
half uint64 = 2 ^ 63

-- 2 to the number of bits
abbrev pub modulus : CType → ℕ
modulus t = 2 * half t

abbrev pub is_negative : CType → ℕ → Bool
is_negative t y = is_signed t && leb (half t) y

abbrev pub negate : CType → ℕ → ℕ
negate t y = (modulus t - y) % modulus t

abbrev pub lowercase : List ℕ
lowercase =
    b'0' ∷ b'1' ∷ b'2' ∷ b'3' ∷ b'4' ∷ b'5' ∷ b'6' ∷ b'7' ∷ b'8' ∷ b'9' ∷ b'a' ∷ b'b' ∷ b'c' ∷ b'd'
    ∷ b'e' ∷ b'f' ∷ []

abbrev pub uppercase : List ℕ
uppercase =
    b'0' ∷ b'1' ∷ b'2' ∷ b'3' ∷ b'4' ∷ b'5' ∷ b'6' ∷ b'7' ∷ b'8' ∷ b'9' ∷ b'A' ∷ b'B' ∷ b'C' ∷ b'D'
    ∷ b'E' ∷ b'F' ∷ []

module _ (t : CType) (base : ℕ) (ch : List ℕ) where
  -- `while (y > 0)`, least digit first. The fuel is the size of `nbuf`.
  pub digits_loop : ℕ → ℕ → List ℕ
  digits_loop zero y = []
  digits_loop (suc fuel) y = elim (y == 0) [
    | true ↦ []
    | false ↦ elim (is_negative t y) [
      | true ↦ []
      | false ↦ get_or ch (y % base) 0 ∷ digits_loop fuel (y / base)
    ]
  ]

  -- What `nbuf` holds at the end, from index 0.
  pub nbuf : ℕ → List ℕ
  nbuf x =
      let y = if is_negative t x then negate t x else x in
      (if y == 0 then b'0' ∷ [] else digits_loop 128 y)
      ++ (if is_negative t x then b'-' ∷ [] else [])

  pub print_num : ℕ → (width fillchar : ℕ) → List ℕ
  print_num x width fillchar = replicate (width - length (nbuf x)) fillchar ++ reverse (nbuf x)

abbrev pub is_digit : ℕ → Bool
is_digit c = leb b'0' c && leb c b'9'

-- `while (*buf >= '0' && *buf <= '9')`: the value and what is left, or `return count`.
-- `utype` is `uint32_t` at both uses.
pub parse_loop : ℕ → List ℕ → Option (ℕ × List ℕ)
parse_loop value [] = some (value, [])
parse_loop value (c ∷ s) =
    let v = (value * 10 + c - b'0') % 2 ^ 32 in
    let rest = parse_loop v s in
    if is_digit c then (if ltb v value then none else rest) else some (value, c ∷ s)

-- The three ways to store the value; `none` is `return count`.
pub parse_finish : CType → (neg : Bool) → ℕ × List ℕ → Option (ℕ × List ℕ)
parse_finish t neg (value, s) =
    if neg
    then (if leb (2 ^ 31) value && not (negate int32 value == 0)
        then none
        else some (negate int32 value, s))
    else if is_signed t
    then (if leb (2 ^ 31) value then none else some (value, s))
    else some (value, s)

-- After the sign: at least one digit, then the loop.
pub parse_digits : CType → (neg : Bool) → List ℕ → Option (ℕ × List ℕ)
parse_digits t neg [] = none
parse_digits t neg (c ∷ s) =
    if is_digit c
    then elim (parse_loop 0 (c ∷ s)) [ none ↦ none | some r ↦ parse_finish t neg r ]
    else none

-- The stored pattern and the rest of the input; `none` is `return count`.
pub parse_num : CType → List ℕ → Option (ℕ × List ℕ)
parse_num t [] = none
parse_num t (c ∷ s) =
    if is_signed t && c == b'-' then parse_digits t true s else parse_digits t false (c ∷ s)
