-- ===== src/Text/Convert/Files.antt =====
-- The conversions of file names, on well-formed text.
use foreign_linux.Base.{ℕ, ◌≤◌, ◌≡◌, ap, false, none, some, List, [], ◌∷◌, length, All, All-append}
use mathlib.Core.List.{map}
use foreign_linux.Text.Utf8
use foreign_linux.Text.Utf8.Laws.{utf8_count_len_lem, utf8_write_increment_lem}
use foreign_linux.Text.Utf16
use foreign_linux.Text.Utf16.Laws.{IsScalar, utf16_write_increment_lem, utf16_count_len_lem}
use foreign_linux.Text.Convert.{
  len, to_filename, to_filename_counted, restore, of_filename, utf8_store, utf8_to_utf16_filename,
  utf16_to_utf8_filename,
}
use foreign_linux.Text.Convert.Rules.{encode_all, convert-encode_all, Reads_mono}
use foreign_linux.Text.Convert.Exact.{utf8, utf16, utf8-Reads, utf16-Reads}
use foreign_linux.Text.Convert.Names.{
  IsNameChar, IsPlain, is_forbidden, encode_all-map, to_filename_counted_lem, to_filename-IsScalar,
  of_filename-le, allowed_units, restore_count, of_name, restored,
}

module _ (past : ℕ) where
  name_exact :
      (cps : List ℕ) (dstlen : ℕ)
      → All (IsNameChar past) cps
      → length (encode_all (λ cp. Utf16.Laws.encode (to_filename past cp)) cps) ≤ dstlen
      → let name = encode_all (λ cp. Utf16.Laws.encode (to_filename past cp)) cps in
        (utf8_to_utf16_filename past (utf8 cps) (some dstlen) ≡ (len (length name), name))
        × (utf8_to_utf16_filename past (utf8 cps) none ≡ (len (length name), []))
  unfolding utf8_to_utf16_filename
  name_exact cps dstlen v h =
      convert-encode_all (Reads_mono utf8-Reads (λ cp w. w.scalar))
        (λ cp. Utf16.utf16_write_increment (to_filename past cp))
        (λ cp. Utf16.utf16_count_len (to_filename_counted past cp))
        (λ cp. Utf16.Laws.encode (to_filename past cp))
        (λ cp room w.
          utf16_write_increment_lem _ room
            (to_filename-IsScalar past cp w.scalar w.not_past).0.le_max)
        (λ cp w. rw (to_filename_counted_lem past cp w.not_past) (utf16_count_len_lem _)) cps dstlen
        v h

  -- For a text without U+0080 in UTF-8, and a buffer with room for the result,
  -- `utf8_to_utf16_filename` stores the UTF-16 form of the transformed characters and returns its
  -- length, and without a buffer it returns the same length.
  pub utf8_to_utf16_filename_lem :
      (cps : List ℕ) (dstlen : ℕ)
      → All (IsNameChar past) cps
      → length (utf16 (map (to_filename past) cps)) ≤ dstlen
      → let name = utf16 (map (to_filename past) cps) in
        (utf8_to_utf16_filename past (utf8 cps) (some dstlen) ≡ (len (length name), name))
        × (utf8_to_utf16_filename past (utf8 cps) none ≡ (len (length name), []))
  utf8_to_utf16_filename_lem cps dstlen =
      rw (← encode_all-map Utf16.Laws.encode (to_filename past) cps) (name_exact cps dstlen)

  allowed :
      (cps : List ℕ)
      → All (IsNameChar past) cps
      → All (λ u. is_forbidden u ≡ false) (utf16 (map (to_filename past) cps))
  unfolding encode_all
  allowed [] v = tt
  allowed (cp ∷ cps) v =
      All-append _ _ _ (allowed_units _ (to_filename-IsScalar past cp v.0.scalar v.0.not_past).1)
        (allowed cps v.1)

  -- No unit that `utf8_to_utf16_filename` stores for such a text is a control character from 1 to
  -- 31 or one of `" * / : < > ? |`.
  pub utf8_to_utf16_filename-allowed :
      (cps : List ℕ) (dstlen : ℕ)
      → All (IsNameChar past) cps
      → length (utf16 (map (to_filename past) cps)) ≤ dstlen
      → All (λ u. is_forbidden u ≡ false) (utf8_to_utf16_filename past (utf8 cps) (some dstlen)).1
  utf8_to_utf16_filename-allowed cps dstlen v h =
      rw (utf8_to_utf16_filename_lem cps dstlen v h).0 (allowed cps v)

  name_restored :
      (xs : List ℕ) (dstlen : ℕ)
      → All IsScalar xs
      → length (encode_all (λ x. Utf8.Laws.encode (of_filename past x)) xs) ≤ dstlen
      → let s = encode_all (λ x. Utf8.Laws.encode (of_filename past x)) xs in
        (utf16_to_utf8_filename past (utf16 xs) (some dstlen) ≡ (len (length s), s))
        × (utf16_to_utf8_filename past (utf16 xs) none ≡ (len (length s), []))
  unfolding utf16_to_utf8_filename
  name_restored xs dstlen v h =
      convert-encode_all utf16-Reads (λ x. utf8_store (of_filename past x))
        (λ x. Utf8.utf8_count_len (restore past x)) (λ x. Utf8.Laws.encode (of_filename past x))
        (λ x room w f. ap some (utf8_write_increment_lem _ room (of_filename-le past x w.le_max) f))
        (λ x w. restore_count past x) xs dstlen v h

  plain_names : (cps : List ℕ) → All (IsPlain past) cps → All (IsNameChar past) cps
  plain_names [] v = tt
  plain_names (cp ∷ cps) v =
      (record { scalar = v.0.scalar; not_past = v.0.not_past }, plain_names cps v.1)

  -- A name of plain characters comes back unchanged, where both buffers have room: no U+0080, no
  -- backslash, and none of the private characters U+F000 to U+F07F that stand for others.
  pub utf16_to_utf8_filename-utf8_to_utf16_filename :
      (cps : List ℕ) (n m : ℕ)
      → All (IsPlain past) cps
      → length (utf16 (map (to_filename past) cps)) ≤ n
      → length (utf8 cps) ≤ m
      → utf16_to_utf8_filename past (utf8_to_utf16_filename past (utf8 cps) (some n)).1 (some m)
        ≡ (len (length (utf8 cps)), utf8 cps)
  utf16_to_utf8_filename-utf8_to_utf16_filename cps n m v hn hm =
      rw (utf8_to_utf16_filename_lem cps n (plain_names cps v) hn).0
        (rw (restored past cps v) at (
          name_restored (map (to_filename past) cps) m (of_name past cps v)
            (rw (restored past cps v) hm))).0
