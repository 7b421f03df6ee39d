-- ===== src/Text/Convert/Total.antt =====
-- The fuel of the loops is enough: whatever the input, each call returns a C value.
use foreign_linux.Base.{
  ℕ, zero, suc, ◌+◌, ◌-◌, ◌≤◌, ◌<◌, ◌≡◌, ◌≢◌, Option, none, some, List, [], ◌∷◌, arith, length,
  Option-cases, inl, inr,
}
use foreign_linux.Text.Utf8.Laws.{utf8_read_increment-lt}
use foreign_linux.Text.Utf16.Laws.{utf16_read_increment-lt}
use foreign_linux.Text.Convert.{
  stuck, Reader, Writer, store_loop, count_loop, convert, utf8_to_utf16, utf16_to_utf8,
  utf8_to_utf16_filename, utf16_to_utf8_filename,
}

-- A reader that takes at least one unit.
abbrev pub Advances : Reader → Type 0
Advances read =
    (l : List ℕ) (cp : ℕ) (rest : List ℕ) → read l ≡ some (cp, rest) → length rest < length l

module _ (read : Reader) (adv : Advances read) where
  store_loop-ne-stuck :
      (write : Writer) (fuel : ℕ) (l : List ℕ) (room outlen : ℕ)
      → length l ≤ fuel
      → (store_loop read write fuel l room outlen).0 ≢ stuck
  unfolding store_loop
  store_loop-ne-stuck write fuel [] room outlen h = ground arith
  store_loop-ne-stuck write zero (x ∷ xs) room outlen h = absurd (omega arith)
  store_loop-ne-stuck write (suc fuel) (x ∷ xs) room outlen h =
      elim (Option-cases (read (x ∷ xs))) [
        | inl e ↦ ground arith
        | inr ((cp, rest), e) ↦ elim (Option-cases (write cp room)) [
          | inl e' ↦ ground arith
          | inr (us, e') ↦ ground (
            arith,
            adv (x ∷ xs) cp rest e,
            store_loop-ne-stuck write fuel rest (room - length us) (outlen + length us),
          )
        ]
      ]

  count_loop-ne-stuck :
      (count : ℕ → ℕ) (fuel : ℕ) (l : List ℕ) (outlen : ℕ)
      → length l ≤ fuel
      → count_loop read count fuel l outlen ≢ stuck
  unfolding count_loop
  count_loop-ne-stuck count fuel [] outlen h = ground arith
  count_loop-ne-stuck count zero (x ∷ xs) outlen h = absurd (omega arith)
  count_loop-ne-stuck count (suc fuel) (x ∷ xs) outlen h = elim (Option-cases (read (x ∷ xs))) [
    | inl e ↦ ground arith
    | inr ((cp, rest), e) ↦
        ground
          (arith, adv (x ∷ xs) cp rest e, count_loop-ne-stuck count fuel rest (outlen + count cp))
  ]

  convert-ne-stuck :
      (write : Writer) (count : ℕ → ℕ) (l : List ℕ) (dst : Option ℕ)
      → (convert read write count l dst).0 ≢ stuck
  unfolding convert
  convert-ne-stuck write count l none = count_loop-ne-stuck count (length l) l 0 (omega arith)
  convert-ne-stuck write count l (some n) = store_loop-ne-stuck write (length l) l n 0 (omega arith)

-- All four conversions return a length or -1, for any input, with or without a buffer.
pub conversions_return :
    (past : ℕ) (l : List ℕ) (dst : Option ℕ)
    → ((utf8_to_utf16 l dst).0 ≢ stuck)
      × ((utf16_to_utf8 l dst).0 ≢ stuck)
      × ((utf8_to_utf16_filename past l dst).0 ≢ stuck)
      × ((utf16_to_utf8_filename past l dst).0 ≢ stuck)
unfolding utf8_to_utf16 utf16_to_utf8 utf8_to_utf16_filename utf16_to_utf8_filename
conversions_return past l dst = (
  convert-ne-stuck _ utf8_read_increment-lt _ _ l dst,
  convert-ne-stuck _ utf16_read_increment-lt _ _ l dst,
  convert-ne-stuck _ utf8_read_increment-lt _ _ l dst,
  convert-ne-stuck _ utf16_read_increment-lt _ _ l dst,
)
