-- ===== src/Text/Utf16.antt =====
-- UTF-16 in src/str.c: one character read from, or written to, a buffer of 16-bit units.
pub mod Laws
use foreign_linux.Base.{
  ℕ, ◌+◌, ◌-◌, ◌*◌, ◌/◌, ◌%◌, ◌^◌, Bool, Option, none, some, List, [], ◌∷◌, bit_and, ltb, leb,
  if◌then◌else◌, ◌&&◌, ◌||◌,
}

-- The two units of a surrogate pair.
read_pair : ℕ → List ℕ → Option (ℕ × List ℕ)
read_pair a [] = none
read_pair a (b ∷ s) =
    if leb 0xd800 a && leb a 0xdbff && leb 0xdc00 b && leb b 0xdfff
    then some (0x10000 + (a - 0xd800) * 2 ^ 10 + (b - 0xdc00), s)
    else none

-- The character and the units after it; `none` is the return value -1.
pub utf16_read_increment : List ℕ → Option (ℕ × List ℕ)
unfolding read_pair
utf16_read_increment [] = none
utf16_read_increment (a ∷ s) = if ltb a 0xd800 || leb 0xe000 a then some (a, s) else read_pair a s

-- `codepoint - 0x10000` as a `uint32_t`.
abbrev above_bmp : ℕ → ℕ
above_bmp cp = (cp + 2 ^ 32 - 0x10000) % 2 ^ 32

-- The units stored for a character in `room` units; their number is the return value, and `none` is
-- the return value -1.
pub utf16_write_increment : ℕ → ℕ → Option (List ℕ)
utf16_write_increment cp room =
    if leb cp 0xffff && leb 1 room
    then some (cp ∷ [])
    else if leb 2 room
    then some (
        (0xd800 + above_bmp cp / 2 ^ 10) % 2 ^ 16
        ∷ (0xdc00 + bit_and (above_bmp cp) 0x3ff) % 2 ^ 16
        ∷ [])
    else none

pub utf16_count_len : ℕ → ℕ
utf16_count_len cp = if leb cp 0xffff then 1 else 2
