-- ===== src/Text/Convert.antt =====
-- The conversions of src/str.c: utf8_to_utf16, utf16_to_utf8 and their forms for file names.
-- The two loops that each function holds are written once, over its reader and its writer.
-- They run on fuel, one round for each unit of the input; `stuck` is no C value.
pub mod Rules
pub mod Total
pub mod Exact
pub mod Size
pub mod Names
pub mod Files
use foreign_linux.Base.{
  ℕ, zero, suc, ◌+◌, ◌-◌, Bool, Option, none, some, List, [], ◌∷◌, ◌++◌, leb, ltb, ◌==◌,
  if◌then◌else◌, length, get_or, ◌%◌, ◌^◌, bit_and, bit_or,
}
use foreign_linux.Text.Utf8.{utf8_read_increment, utf8_write_increment, utf8_count_len}
use foreign_linux.Text.Utf16.{utf16_read_increment, utf16_write_increment, utf16_count_len}

-- `len n` is the return value n, and `fail` is -1.
pub data Ret : Type 0 where
  len : ℕ → Ret
  fail stuck : Ret

-- The return value, and the units stored from `outdata` on.
abbrev pub Out : Type 0
Out = Ret × List ℕ

abbrev pub Reader : Type 0
Reader = List ℕ → Option (ℕ × List ℕ)

-- Takes a character and the room that is left; `none` is a negative return value.
abbrev pub Writer : Type 0
Writer = ℕ → ℕ → Option (List ℕ)

module _ (read : Reader) (write : Writer) where
  -- `while (data < last)` with a buffer: `room` is `outlast - outdata`.
  pub store_loop : ℕ → List ℕ → (room outlen : ℕ) → Out
  store_loop fuel [] room outlen = (len outlen, [])
  store_loop zero (x ∷ xs) room outlen = (stuck, [])
  store_loop (suc fuel) (x ∷ xs) room outlen = elim (read (x ∷ xs)) [
    | none ↦ (fail, [])
    | some (cp, rest) ↦ elim (write cp room) [
      | none ↦ (fail, [])
      | some us ↦
          let r = store_loop fuel rest (room - length us) (outlen + length us) in (r.0, us ++ r.1)
    ]
  ]

module _ (read : Reader) (count : ℕ → ℕ) where
  -- `while (data < last)` where `outdata` is `NULL`.
  pub count_loop : ℕ → List ℕ → (outlen : ℕ) → Ret
  count_loop fuel [] outlen = len outlen
  count_loop zero (x ∷ xs) outlen = stuck
  count_loop (suc fuel) (x ∷ xs) outlen = elim (read (x ∷ xs)) [
    | none ↦ fail
    | some (cp, rest) ↦ count_loop fuel rest (outlen + count cp)
  ]

module _ (read : Reader) (write : Writer) (count : ℕ → ℕ) where
  -- The two arms of `if (outdata)`: `some dstlen` is a buffer of that length.
  pub convert : List ℕ → Option ℕ → Out
  convert src (some dstlen) = store_loop read write (length src) src dstlen 0
  convert src none = (count_loop read count (length src) src 0, [])

-- `utf8_write_increment` returns no negative number.
abbrev pub utf8_store : Writer
utf8_store cp room = some (utf8_write_increment cp room)

pub utf8_to_utf16 : List ℕ → Option ℕ → Out
utf8_to_utf16 = convert utf8_read_increment utf16_write_increment utf16_count_len

pub utf16_to_utf8 : List ℕ → Option ℕ → Out
utf16_to_utf8 = convert utf16_read_increment utf8_store utf8_count_len

-- 0xf000 | c, the code that stands for a character that Windows does not allow in a name.
abbrev pub private_use : ℕ → ℕ
private_use c = bit_or 0xf000 c

abbrev pub from_to : ℕ → ℕ → List ℕ
from_to a zero = []
from_to a (suc n) = a ∷ from_to (a + 1) n

abbrev privates : ℕ → ℕ → List ℕ
privates a zero = []
privates a (suc n) = private_use a ∷ privates (a + 1) n

-- The table, row by row where it is regular.
abbrev pub filename_transform_chars : List ℕ
filename_transform_chars =
    (0 ∷ privates 1 31)
    ++ (b' ' ∷ b'!' ∷ private_use b'"' ∷ b'#' ∷ b'$' ∷ b'%' ∷ b'&' ∷ 39 ∷ [])
    ++ (b'(' ∷ b')' ∷ private_use b'*' ∷ b'+' ∷ b',' ∷ b'-' ∷ b'.' ∷ b'\\' ∷ [])
    ++ from_to b'0' 10
    ++ (private_use b':'
        ∷ b';'
        ∷ private_use b'<'
        ∷ b'='
        ∷ private_use b'>'
        ∷ private_use b'?'
        ∷ [])
    ++ from_to b'@' 60
    ++ (private_use b'|' ∷ b'}' ∷ b'~' ∷ 127 ∷ [])

-- `past` is what lies behind the table in memory: the test `codepoint <= 0x80` reads one entry too
-- far.
module _ (past : ℕ) where
  unfoldable pub transform : ℕ → ℕ
  transform cp = get_or filename_transform_chars cp past

  unfoldable pub to_filename : ℕ → ℕ
  to_filename cp = if leb cp 0x80 then transform cp else cp

  -- The test of the counting loop.
  pub to_filename_counted : ℕ → ℕ
  to_filename_counted cp = if leb cp 0x7f then transform cp else cp

  pub utf8_to_utf16_filename : List ℕ → Option ℕ → Out
  utf8_to_utf16_filename =
      convert utf8_read_increment (λ cp. utf16_write_increment (to_filename cp))
        (λ cp. utf16_count_len (to_filename_counted cp))

  -- The index `codepoint & 0x7F` is in the table.
  pub restore : ℕ → ℕ
  restore cp = if transform (bit_and cp 0x7f) == cp then bit_and cp 0x7f else cp

  pub of_filename : ℕ → ℕ
  of_filename cp = if cp == b'\\' then b'/' else restore cp

  pub utf16_to_utf8_filename : List ℕ → Option ℕ → Out
  utf16_to_utf8_filename =
      convert utf16_read_increment (λ cp. utf8_store (of_filename cp))
        (λ cp. utf8_count_len (restore cp))
