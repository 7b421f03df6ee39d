-- ===== src/Text/Utf8/Laws.antt =====
-- One character through the UTF-8 code of src/str.c, against the arithmetic of the encoding.
use foreign_linux.Base.{
  ℕ, ◌+◌, ◌/◌, ◌%◌, ◌^◌, ◌≤◌, ◌<◌, ◌≡◌, some, List, [], ◌∷◌, ◌++◌, arith, leb, if◌then◌else◌,
  length,
}
use foreign_linux.Base.Bits.{and_15, and_31, and_63, and_127}
use foreign_linux.Text.Utf8.{utf8_read_increment, utf8_write_increment, utf8_count_len}
use foreign_linux.Text.Utf8.Bytes.{
  is_ascii, is_lead_2, is_lead_3, is_lead_4, or_80, or_c0, or_e0, or_f0,
}

-- The encoding form of a character, written with sums and remainders.
unfoldable pub encode : ℕ → List ℕ
encode cp =
    if leb cp 0x7f
    then cp ∷ []
    else if leb cp 0x7ff
    then (192 + cp / 64) ∷ (128 + cp % 64) ∷ []
    else if leb cp 0xffff
    then (224 + cp / 4096) ∷ (128 + cp / 64 % 64) ∷ (128 + cp % 64) ∷ []
    else (240 + cp / 262144) ∷ (128 + cp / 4096 % 64) ∷ (128 + cp / 64 % 64) ∷ (128 + cp % 64) ∷ []

abbrev pub max_cp : ℕ
max_cp = 0x10ffff

pub utf8_count_len_lem : (cp : ℕ) → utf8_count_len cp ≡ length (encode cp)
unfolding utf8_count_len encode
utf8_count_len_lem cp = ground arith

-- What `utf8_write_increment` stores where there is room.
pub utf8_write_increment_lem :
    (cp room : ℕ)
    → cp ≤ max_cp
    → length (encode cp) ≤ room
    → utf8_write_increment cp room ≡ encode cp
unfolding utf8_write_increment encode
utf8_write_increment_lem cp room h fits = ground (
  arith,
  and_63 cp,
  and_63 (cp / 2 ^ 6),
  and_63 (cp / 2 ^ 12),
  or_80 (cp % 64),
  or_80 (cp / 64 % 64),
  or_80 (cp / 4096 % 64),
  or_c0 (cp / 64),
  or_e0 (cp / 4096),
  or_f0 (cp / 262144),
)

-- Where there is none, it stores nothing, and that is no error to its callers.
pub utf8_write_increment_full :
    (cp room : ℕ) → room < length (encode cp) → utf8_write_increment cp room ≡ []
unfolding utf8_write_increment encode
utf8_write_increment_full cp room h = ground arith

-- The reader takes back exactly what the encoding form holds, and leaves the rest.
pub utf8_read_increment_lem :
    (cp : ℕ) (rest : List ℕ)
    → cp ≤ max_cp
    → utf8_read_increment (encode cp ++ rest) ≡ some (cp, rest)
unfolding utf8_read_increment encode
utf8_read_increment_lem cp rest h = ground (
  arith,
  is_ascii cp,
  is_ascii (192 + cp / 64),
  is_lead_2 (192 + cp / 64),
  is_ascii (224 + cp / 4096),
  is_lead_2 (224 + cp / 4096),
  is_lead_3 (224 + cp / 4096),
  is_ascii (240 + cp / 262144),
  is_lead_2 (240 + cp / 262144),
  is_lead_3 (240 + cp / 262144),
  is_lead_4 (240 + cp / 262144),
  and_63 (192 + cp / 64),
  and_31 (224 + cp / 4096),
  and_15 (240 + cp / 262144),
  and_127 (128 + cp % 64),
  and_127 (128 + cp / 64 % 64),
  and_127 (128 + cp / 4096 % 64),
)

-- Whatever the bytes, a read that succeeds takes at least one of them.
pub utf8_read_increment-lt :
    (l : List ℕ) (cp : ℕ) (rest : List ℕ)
    → utf8_read_increment l ≡ some (cp, rest)
    → length rest < length l
unfolding utf8_read_increment
utf8_read_increment-lt [] cp rest h = ground arith
utf8_read_increment-lt (a ∷ []) cp rest h = ground arith
utf8_read_increment-lt (a ∷ b ∷ []) cp rest h = ground arith
utf8_read_increment-lt (a ∷ b ∷ c ∷ []) cp rest h = ground arith
utf8_read_increment-lt (a ∷ b ∷ c ∷ d ∷ l) cp rest h = ground arith

pub utf8_write_increment_count :
    (cp room : ℕ)
    → utf8_count_len cp ≤ room
    → length (utf8_write_increment cp room) ≡ utf8_count_len cp
unfolding utf8_write_increment utf8_count_len
utf8_write_increment_count cp room h = ground arith

-- The writer stays within its room.
pub utf8_write_increment-le : (cp room : ℕ) → length (utf8_write_increment cp room) ≤ room
unfolding utf8_write_increment
utf8_write_increment-le cp room = ground arith
