-- ===== src/Text/Convert/Exact.antt =====
-- The conversions between UTF-8 and UTF-16 on well-formed text.
use foreign_linux.Base.{ℕ, ◌≤◌, ◌≡◌, none, some, List, arith, length, All, [], ap}
use foreign_linux.Text.Utf8
use foreign_linux.Text.Utf8.Laws.{
  max_cp, utf8_read_increment_lem, utf8_write_increment_lem, utf8_count_len_lem,
}
use foreign_linux.Text.Utf16
use foreign_linux.Text.Utf16.Laws.{
  IsScalar, utf16_read_increment_lem, utf16_write_increment_lem, utf16_count_len_lem,
}
use foreign_linux.Text.Convert.{len, utf8_to_utf16, utf16_to_utf8, utf8_store}
use foreign_linux.Text.Convert.Rules.{encode_all, Reads, convert-encode_all}

-- Text in each of the two encoding forms.
abbrev pub utf8 : List ℕ → List ℕ
utf8 = encode_all Utf8.Laws.encode

abbrev pub utf16 : List ℕ → List ℕ
utf16 = encode_all Utf16.Laws.encode

encode8-nonempty : (cp : ℕ) → 1 ≤ length (Utf8.Laws.encode cp)
unfolding Utf8.Laws.encode
encode8-nonempty cp = ground arith

encode16-nonempty : (cp : ℕ) → 1 ≤ length (Utf16.Laws.encode cp)
unfolding Utf16.Laws.encode
encode16-nonempty cp = ground arith

pub utf8-Reads : Reads Utf8.utf8_read_increment Utf8.Laws.encode IsScalar
utf8-Reads = record {
  reads = λ cp rest v. utf8_read_increment_lem cp rest v.le_max;
  nonempty = encode8-nonempty;
}

pub utf16-Reads : Reads Utf16.utf16_read_increment Utf16.Laws.encode IsScalar
utf16-Reads = record { reads = utf16_read_increment_lem; nonempty = encode16-nonempty }

-- For a text of Unicode scalar values in UTF-8, and a buffer with room for its UTF-16 form,
-- `utf8_to_utf16` stores exactly that form and returns its length; without a buffer it returns the
-- same length.
pub utf8_to_utf16_lem :
    (cps : List ℕ) (dstlen : ℕ)
    → All IsScalar cps
    → length (utf16 cps) ≤ dstlen
    → (utf8_to_utf16 (utf8 cps) (some dstlen) ≡ (len (length (utf16 cps)), utf16 cps))
      × (utf8_to_utf16 (utf8 cps) none ≡ (len (length (utf16 cps)), []))
unfolding utf8_to_utf16
utf8_to_utf16_lem cps dstlen v h =
    convert-encode_all utf8-Reads Utf16.utf16_write_increment Utf16.utf16_count_len
      Utf16.Laws.encode (λ cp room w. utf16_write_increment_lem cp room w.le_max)
      (λ cp w. utf16_count_len_lem cp) cps dstlen v h

pub utf8_store_lem :
    (cp room : ℕ)
    → IsScalar cp
    → length (Utf8.Laws.encode cp) ≤ room
    → utf8_store cp room ≡ some (Utf8.Laws.encode cp)
utf8_store_lem cp room w h = ap some (utf8_write_increment_lem cp room w.le_max h)

-- For a text of Unicode scalar values in UTF-16, and a buffer with room for its UTF-8 form,
-- `utf16_to_utf8` stores exactly that form and returns its length; without a buffer it returns the
-- same length.
pub utf16_to_utf8_lem :
    (cps : List ℕ) (dstlen : ℕ)
    → All IsScalar cps
    → length (utf8 cps) ≤ dstlen
    → (utf16_to_utf8 (utf16 cps) (some dstlen) ≡ (len (length (utf8 cps)), utf8 cps))
      × (utf16_to_utf8 (utf16 cps) none ≡ (len (length (utf8 cps)), []))
unfolding utf16_to_utf8
utf16_to_utf8_lem cps dstlen v h =
    convert-encode_all utf16-Reads utf8_store Utf8.utf8_count_len Utf8.Laws.encode utf8_store_lem
      (λ cp w. utf8_count_len_lem cp) cps dstlen v h

-- With room in both buffers, a well-formed UTF-8 text comes back unchanged from UTF-16.
pub utf16_to_utf8-utf8_to_utf16 :
    (cps : List ℕ) (n m : ℕ)
    → All IsScalar cps
    → length (utf16 cps) ≤ n
    → length (utf8 cps) ≤ m
    → utf16_to_utf8 (utf8_to_utf16 (utf8 cps) (some n)).1 (some m)
      ≡ (len (length (utf8 cps)), utf8 cps)
utf16_to_utf8-utf8_to_utf16 cps n m v hn hm =
    rw (utf8_to_utf16_lem cps n v hn).0 (utf16_to_utf8_lem cps m v hm).0
