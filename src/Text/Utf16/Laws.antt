-- ===== src/Text/Utf16/Laws.antt =====
-- One character through the UTF-16 code of src/str.c, against the arithmetic of the encoding.
use foreign_linux.Base.{
  ℕ, ◌+◌, ◌-◌, ◌/◌, ◌%◌, ◌^◌, ◌≤◌, ◌<◌, ◌≡◌, ◌⊎◌, none, some, List, [], ◌∷◌, ◌++◌, arith, leb,
  if◌then◌else◌, length, Bool-cases, bit_and, inl, inr,
}
use foreign_linux.Base.Bits.{and_1023}
use foreign_linux.Text.Utf8.Laws.{max_cp}
use foreign_linux.Text.Utf16.{
  utf16_read_increment, utf16_write_increment, utf16_count_len, above_bmp,
}

unfoldable pub encode : ℕ → List ℕ
encode cp =
    if leb cp 0xffff
    then cp ∷ []
    else (0xd800 + (cp - 0x10000) / 1024) ∷ (0xdc00 + (cp - 0x10000) % 1024) ∷ []

-- A Unicode scalar value: no surrogate.
pub record IsScalar (cp : ℕ) : Type 0 where
  pub le_max : cp ≤ max_cp
  pub not_surrogate : (cp < 0xd800) ⊎ (0xe000 ≤ cp)

pub utf16_count_len_lem : (cp : ℕ) → utf16_count_len cp ≡ length (encode cp)
unfolding utf16_count_len encode
utf16_count_len_lem cp = ground arith

pub utf16_write_increment_lem :
    (cp room : ℕ)
    → cp ≤ max_cp
    → length (encode cp) ≤ room
    → utf16_write_increment cp room ≡ some (encode cp)
unfolding utf16_write_increment encode
utf16_write_increment_lem cp room h fits =
    ground (arith, and_1023 ((cp + 2 ^ 32 - 0x10000) % 2 ^ 32))

-- Where there is no room it says so.
pub utf16_write_increment_full :
    (cp room : ℕ) → room < length (encode cp) → utf16_write_increment cp room ≡ none
unfolding utf16_write_increment encode
utf16_write_increment_full cp room h = ground arith

pub utf16_read_increment_lem :
    (cp : ℕ) (rest : List ℕ)
    → IsScalar cp
    → utf16_read_increment (encode cp ++ rest) ≡ some (cp, rest)
unfolding utf16_read_increment encode
utf16_read_increment_lem cp rest h = ground arith

-- Whatever the units, a read that succeeds takes at least one of them.
pub utf16_read_increment-lt :
    (l : List ℕ) (cp : ℕ) (rest : List ℕ)
    → utf16_read_increment l ≡ some (cp, rest)
    → length rest < length l
unfolding utf16_read_increment
utf16_read_increment-lt [] cp rest h = ground arith
utf16_read_increment-lt (a ∷ []) cp rest h = ground arith
utf16_read_increment-lt (a ∷ b ∷ l) cp rest h = ground arith

-- The units that are stored, for any character, as far as their number goes.
pub utf16_write_increment_count :
    (cp room : ℕ)
    → utf16_count_len cp ≤ room
    → (us : List ℕ) × (utf16_write_increment cp room ≡ some us) × (length us ≡ utf16_count_len cp)
unfolding utf16_write_increment utf16_count_len
utf16_write_increment_count cp room h = elim (Bool-cases (leb cp 0xffff)) [
  | inl s ↦ (cp ∷ [], ground arith, ground arith)
  | inr b ↦ (
    (0xd800 + above_bmp cp / 2 ^ 10) % 2 ^ 16
        ∷ (0xdc00 + bit_and (above_bmp cp) 0x3ff) % 2 ^ 16
        ∷ [],
    ground arith,
    ground arith,
  )
]
