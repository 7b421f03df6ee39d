-- ===== src/Text/Utf8.antt =====
-- UTF-8 in src/str.c: one character read from, or written to, a buffer of bytes.
-- A `char` is its bit pattern, below 256, and `LOWBITS (x, n)` keeps n + 1 bits.
pub mod Bytes
pub mod Laws
use foreign_linux.Base.{
  ℕ, ◌+◌, ◌-◌, ◌*◌, ◌/◌, ◌%◌, ◌^◌, Bool, Option, none, some, List, [], ◌∷◌, bit_and, bit_or, leb,
  ◌==◌, if◌then◌else◌, get_or, ◌&&◌, length,
}

abbrev pub low_bits : ℕ → ℕ → ℕ
low_bits x bits = bit_and x (2 ^ (bits + 1) - 1)

-- `none` is the return value -1.
pub utf8_get_sequence_len : ℕ → Option ℕ
utf8_get_sequence_len ch =
    if bit_and ch 0x80 == 0
    then some 1
    else if bit_and ch 0xe0 == 0xc0
    then some 2
    else if bit_and ch 0xf0 == 0xe0
    then some 3
    else if bit_and ch 0xf8 == 0xf0
    then some 4
    else none

-- The sums of the three multi-byte forms.
abbrev pub join_2 : ℕ → ℕ → ℕ
join_2 a b = low_bits a 5 * 2 ^ 6 + low_bits b 6

abbrev pub join_3 : ℕ → ℕ → ℕ → ℕ
join_3 a b c = low_bits a 4 * 2 ^ 12 + low_bits b 6 * 2 ^ 6 + low_bits c 6

abbrev pub join_4 : ℕ → ℕ → ℕ → ℕ → ℕ
join_4 a b c d = low_bits a 3 * 2 ^ 18 + low_bits b 6 * 2 ^ 12 + low_bits c 6 * 2 ^ 6 + low_bits d 6

-- The list holds the bytes that the pointer reaches; `none` is the return value -1.
pub utf8_decode : List ℕ → Option ℕ
utf8_decode s =
    if bit_and (get_or s 0 0) 0x80 == 0
    then some (get_or s 0 0)
    else if bit_and (get_or s 0 0) 0xe0 == 0xc0
    then some (join_2 (get_or s 0 0) (get_or s 1 0))
    else if bit_and (get_or s 0 0) 0xf0 == 0xe0
    then some (join_3 (get_or s 0 0) (get_or s 1 0) (get_or s 2 0))
    else if bit_and (get_or s 0 0) 0xf8 == 0xf0
    then some (join_4 (get_or s 0 0) (get_or s 1 0) (get_or s 2 0) (get_or s 3 0))
    else none

-- The four cases of the lead byte, and the length test of each.
read_2 : ℕ → List ℕ → Option (ℕ × List ℕ)
read_2 a (b ∷ s) = some (join_2 a b, s)
read_2 a [] = none

read_3 : ℕ → List ℕ → Option (ℕ × List ℕ)
read_3 a (b ∷ c ∷ s) = some (join_3 a b c, s)
read_3 a _ = none

read_4 : ℕ → List ℕ → Option (ℕ × List ℕ)
read_4 a (b ∷ c ∷ d ∷ s) = some (join_4 a b c d, s)
read_4 a _ = none

-- The character and the bytes after it; `none` is the return value -1.
pub utf8_read_increment : List ℕ → Option (ℕ × List ℕ)
unfolding read_2 read_3 read_4
utf8_read_increment [] = none
utf8_read_increment (a ∷ s) =
    if bit_and a 0x80 == 0
    then some (a, s)
    else if bit_and a 0xe0 == 0xc0
    then read_2 a s
    else if bit_and a 0xf0 == 0xe0
    then read_3 a s
    else if bit_and a 0xf8 == 0xf0
    then read_4 a s
    else none

-- The bytes stored for a character in `room` bytes: their number is the return value, so an empty
-- list is the return value 0.
pub utf8_write_increment : ℕ → ℕ → List ℕ
utf8_write_increment cp room =
    if leb cp 0x7f && leb 1 room
    then cp ∷ []
    else if leb cp 0x7ff && leb 2 room
    then bit_or 0xc0 (cp / 2 ^ 6) ∷ bit_or 0x80 (bit_and cp 0x3f) ∷ []
    else if leb cp 0xffff && leb 3 room
    then bit_or 0xe0 (cp / 2 ^ 12)
      ∷ bit_or 0x80 (bit_and (cp / 2 ^ 6) 0x3f)
      ∷ bit_or 0x80 (bit_and cp 0x3f)
      ∷ []
    else if leb 4 room
    then bit_or 0xf0 (cp / 2 ^ 18) % 2 ^ 8
      ∷ bit_or 0x80 (bit_and (cp / 2 ^ 12) 0x3f)
      ∷ bit_or 0x80 (bit_and (cp / 2 ^ 6) 0x3f)
      ∷ bit_or 0x80 (bit_and cp 0x3f)
      ∷ []
    else []

pub utf8_count_len : ℕ → ℕ
utf8_count_len cp =
    if leb cp 0x7f then 1 else if leb cp 0x7ff then 2 else if leb cp 0xffff then 3 else 4
