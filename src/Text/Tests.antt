-- ===== src/Text/Tests.antt =====
-- src/str.c at concrete texts.
use foreign_linux.Base.{
  ℕ, ◌≤◌, ◌<◌, ◌≡◌, ◌≢◌, inl, inr, ap, false, none, some, List, [], ◌∷◌, arith, length, All,
}
use foreign_linux.Text.Utf16.Laws.{IsScalar, encode}
use foreign_linux.Text.Convert.{
  len, fail, stuck, utf8_to_utf16, utf16_to_utf8, utf8_to_utf16_filename, utf16_to_utf8_filename,
  to_filename, transform,
}
use foreign_linux.Text.Convert.Rules.{encode_all}
use foreign_linux.Text.Convert.Exact.{
  utf8_to_utf16_lem, utf16_to_utf8_lem, utf16_to_utf8-utf8_to_utf16,
}
use foreign_linux.Text.Convert.Size.{utf8_to_utf16_room, utf16_to_utf8_room}
use foreign_linux.Text.Convert.Names.{IsNameChar, IsPlain, is_forbidden}
use foreign_linux.Text.Convert.Files.{
  utf8_to_utf16_filename-allowed, utf16_to_utf8_filename-utf8_to_utf16_filename,
}
use foreign_linux.Text.Convert.Total.{conversions_return}
use foreign_linux.Text.Utf8

-- A euro sign and a smiling face.
abbrev euro_smile : List ℕ
euro_smile = 0x20ac ∷ 0x1f600 ∷ []

abbrev euro_smile_8 : List ℕ
euro_smile_8 = 0xe2 ∷ 0x82 ∷ 0xac ∷ 0xf0 ∷ 0x9f ∷ 0x98 ∷ 0x80 ∷ []

abbrev euro_smile_16 : List ℕ
euro_smile_16 = 0x20ac ∷ 0xd83d ∷ 0xde00 ∷ []

scalars : All IsScalar euro_smile
scalars = (
  record { le_max = omega arith; not_surrogate = inl (omega arith) },
  (record { le_max = omega arith; not_surrogate = inr (omega arith) }, tt),
)

utf8_to_utf16_lem_example :
    (utf8_to_utf16 euro_smile_8 (some 4) ≡ (len 3, euro_smile_16))
    × (utf8_to_utf16 euro_smile_8 none ≡ (len 3, []))
unfolding encode_all encode Utf8.Laws.encode
utf8_to_utf16_lem_example = utf8_to_utf16_lem euro_smile 4 scalars (omega arith)

utf16_to_utf8_lem_example :
    (utf16_to_utf8 euro_smile_16 (some 7) ≡ (len 7, euro_smile_8))
    × (utf16_to_utf8 euro_smile_16 none ≡ (len 7, []))
unfolding encode_all encode Utf8.Laws.encode
utf16_to_utf8_lem_example = utf16_to_utf8_lem euro_smile 7 scalars (omega arith)

utf16_to_utf8-utf8_to_utf16_example :
    utf16_to_utf8 (utf8_to_utf16 euro_smile_8 (some 3)).1 (some 9) ≡ (len 7, euro_smile_8)
unfolding encode_all encode Utf8.Laws.encode
utf16_to_utf8-utf8_to_utf16_example =
    utf16_to_utf8-utf8_to_utf16 euro_smile 3 9 scalars (omega arith) (omega arith)

counted_16 : (utf8_to_utf16 euro_smile_8 none).0 ≡ len 3
unfolding encode_all encode Utf8.Laws.encode
counted_16 = ap (λ r. r.0) (utf8_to_utf16_lem euro_smile 4 scalars (omega arith)).1

counted_8 : (utf16_to_utf8 euro_smile_16 none).0 ≡ len 7
unfolding encode_all encode Utf8.Laws.encode
counted_8 = ap (λ r. r.0) (utf16_to_utf8_lem euro_smile 7 scalars (omega arith)).1

-- A buffer of two units is too small for three.
utf8_to_utf16_room_example :
    (3 ≤ 2
      → ((utf8_to_utf16 euro_smile_8 (some 2)).0 ≡ len 3)
        × (length (utf8_to_utf16 euro_smile_8 (some 2)).1 ≡ 3))
    × (2 < 3 → (utf8_to_utf16 euro_smile_8 (some 2)).0 ≡ fail)
utf8_to_utf16_room_example = utf8_to_utf16_room euro_smile_8 2 3 counted_16

utf16_to_utf8_room_example :
    (7 ≤ 5
      → ((utf16_to_utf8 euro_smile_16 (some 5)).0 ≡ len 7)
        × (length (utf16_to_utf8 euro_smile_16 (some 5)).1 ≡ 7))
    × (5 < 7
        → ((utf16_to_utf8 euro_smile_16 (some 5)).0
            ≡ len (length (utf16_to_utf8 euro_smile_16 (some 5)).1))
          × (length (utf16_to_utf8 euro_smile_16 (some 5)).1 ≤ 5))
utf16_to_utf8_room_example = utf16_to_utf8_room euro_smile_16 5 7 counted_8

-- `a:*`
abbrev a_colon_star : List ℕ
a_colon_star = 97 ∷ 58 ∷ 42 ∷ []

a_colon_star-IsNameChar : All (IsNameChar 0) a_colon_star
a_colon_star-IsNameChar = (
  record {
    scalar = record { le_max = omega arith; not_surrogate = inl (omega arith) };
    not_past = ground arith;
  },
  (
    record {
      scalar = record { le_max = omega arith; not_surrogate = inl (omega arith) };
      not_past = ground arith;
    },
    (
      record {
        scalar = record { le_max = omega arith; not_surrogate = inl (omega arith) };
        not_past = ground arith;
      },
      tt,
    ),
  ),
)

a_colon_star-IsPlain : All (IsPlain 0) a_colon_star
a_colon_star-IsPlain = (
  record {
    scalar = record { le_max = omega arith; not_surrogate = inl (omega arith) };
    not_past = ground arith;
    not_backslash = ground arith;
    not_private = inl (omega arith);
  },
  (
    record {
      scalar = record { le_max = omega arith; not_surrogate = inl (omega arith) };
      not_past = ground arith;
      not_backslash = ground arith;
      not_private = inl (omega arith);
    },
    (
      record {
        scalar = record { le_max = omega arith; not_surrogate = inl (omega arith) };
        not_past = ground arith;
        not_backslash = ground arith;
        not_private = inl (omega arith);
      },
      tt,
    ),
  ),
)

utf8_to_utf16_filename-allowed_example :
    All (λ u. is_forbidden u ≡ false) (utf8_to_utf16_filename 0 a_colon_star (some 3)).1
unfolding encode_all encode Utf8.Laws.encode to_filename transform
utf8_to_utf16_filename-allowed_example =
    utf8_to_utf16_filename-allowed 0 a_colon_star 3 a_colon_star-IsNameChar (omega arith)

utf16_to_utf8_filename-utf8_to_utf16_filename_example :
    utf16_to_utf8_filename 0 (utf8_to_utf16_filename 0 a_colon_star (some 3)).1 (some 3)
    ≡ (len 3, a_colon_star)
unfolding encode_all encode Utf8.Laws.encode to_filename transform
utf16_to_utf8_filename-utf8_to_utf16_filename_example =
    utf16_to_utf8_filename-utf8_to_utf16_filename 0 a_colon_star 3 3 a_colon_star-IsPlain
      (omega arith) (omega arith)

-- A surrogate that stands alone, and a byte that begins no character.
abbrev broken : List ℕ
broken = 0xd800 ∷ 0x80 ∷ []

conversions_return_example :
    ((utf8_to_utf16 broken none).0 ≢ stuck)
    × ((utf16_to_utf8 broken none).0 ≢ stuck)
    × ((utf8_to_utf16_filename 0 broken none).0 ≢ stuck)
    × ((utf16_to_utf8_filename 0 broken none).0 ≢ stuck)
conversions_return_example = conversions_return 0 broken none
