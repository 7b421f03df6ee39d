-- ===== src/Text/Convert/Size.antt =====
-- What the conversions do when the buffer is too small, for any input.
use foreign_linux.Base.{
  ℕ, zero, suc, ◌+◌, ◌-◌, ◌≤◌, ◌<◌, ◌≡◌, refl, none, some, List, [], ◌∷◌, arith, length,
  length-append, Option-cases, Bool-cases, leb, leb→le, inl, inr, ap,
}
use foreign_linux.Text.Utf8
use foreign_linux.Text.Utf8.{utf8_read_increment, utf8_write_increment, utf8_count_len}
use foreign_linux.Text.Utf16
use foreign_linux.Text.Utf16.{utf16_read_increment, utf16_write_increment, utf16_count_len}
use foreign_linux.Text.Convert.{
  len, fail, Reader, Writer, store_loop, count_loop, convert, utf8_to_utf16, utf16_to_utf8,
  utf8_store,
}

-- A writer stores as many units as `count` says, where there is room for them.
abbrev Fits : Writer → (ℕ → ℕ) → Type 0
Fits write count =
    (cp room : ℕ)
    → count cp ≤ room
    → (us : List ℕ) × (write cp room ≡ some us) × (length us ≡ count cp)

-- It fails where there is no room.
abbrev Refuses : Writer → (ℕ → ℕ) → Type 0
Refuses write count = (cp room : ℕ) → room < count cp → write cp room ≡ none

module _ (read : Reader) (count : ℕ → ℕ) where
  count_loop-ge :
      (fuel : ℕ) (l : List ℕ) (outlen n : ℕ)
      → count_loop read count fuel l outlen ≡ len n
      → outlen ≤ n
  unfolding count_loop
  count_loop-ge fuel [] outlen n e = ground arith
  count_loop-ge zero (x ∷ xs) outlen n e = ground arith
  count_loop-ge (suc fuel) (x ∷ xs) outlen n e = elim (Option-cases (read (x ∷ xs))) [
    | inl e' ↦ ground arith
    | inr ((cp, rest), e') ↦ ground (arith, count_loop-ge fuel rest (outlen + count cp) n)
  ]

module _ (read : Reader) (write : Writer) (count : ℕ → ℕ) where
  store_loop-Fits :
      Fits write count
      → (fuel : ℕ) (l : List ℕ) (room outlen n : ℕ) → count_loop read count fuel l outlen ≡ len n
      → n ≤ outlen + room
      → let r = store_loop read write fuel l room outlen in
        (r.0 ≡ len n) × (outlen + length r.1 ≡ n)
  unfolding store_loop count_loop
  store_loop-Fits f fuel [] room outlen n e h = ground arith
  store_loop-Fits f zero (x ∷ xs) room outlen n e h = ground arith
  store_loop-Fits f (suc fuel) (x ∷ xs) room outlen n e h = elim (Option-cases (read (x ∷ xs))) [
    | inl e' ↦ ground arith
    | inr ((cp, rest), e') ↦
        let e'' : count_loop read count fuel rest (outlen + count cp) ≡ len n = ground arith in
        let le = count_loop-ge read count fuel rest (outlen + count cp) n e'' in
        let (us, w, c) = f cp room (omega arith) in
        ground (
          arith,
          store_loop-Fits f fuel rest (room - length us) (outlen + length us) n,
          length-append us
              (store_loop read write fuel rest (room - length us) (outlen + length us)).1,
        )
  ]

  store_loop-fail :
      Fits write count
      → Refuses write count
      → (fuel : ℕ) (l : List ℕ) (room outlen n : ℕ) → count_loop read count fuel l outlen ≡ len n
      → outlen + room < n
      → (store_loop read write fuel l room outlen).0 ≡ fail
  unfolding store_loop count_loop
  store_loop-fail f g fuel [] room outlen n e h = ground arith
  store_loop-fail f g zero (x ∷ xs) room outlen n e h = ground arith
  store_loop-fail f g (suc fuel) (x ∷ xs) room outlen n e h = elim (Option-cases (read (x ∷ xs))) [
    | inl e' ↦ ground arith
    | inr ((cp, rest), e') ↦ elim (Bool-cases (leb (count cp) room)) [
      | inl small ↦
          let e'' : count_loop read count fuel rest (outlen + count cp) ≡ len n = ground arith in
          let (us, w, c) = f cp room (leb→le _ _ small) in
          rw (e', store_loop)
            (rw w (
              store_loop-fail f g fuel rest (room - length us) (outlen + length us) n (rw c e'')
                (omega (arith, leb→le _ _ small))))
      | inr big ↦ ground (arith, g cp room)
    ]
  ]

  -- A writer that stores what fits and never fails.
  store_loop-len :
      ((cp room : ℕ) → (us : List ℕ) × (write cp room ≡ some us) × (length us ≤ room))
      → (fuel : ℕ) (l : List ℕ) (room outlen n outlen' : ℕ)
      → count_loop read count fuel l outlen' ≡ len n
      → let r = store_loop read write fuel l room outlen in
        (r.0 ≡ len (outlen + length r.1)) × (length r.1 ≤ room)
  unfolding store_loop count_loop
  store_loop-len f fuel [] room outlen n outlen' e = (ap len (omega arith), omega arith)
  store_loop-len f zero (x ∷ xs) room outlen n outlen' e = ground arith
  store_loop-len f (suc fuel) (x ∷ xs) room outlen n outlen' e =
      elim (Option-cases (read (x ∷ xs))) [
        | inl e' ↦ ground arith
        | inr ((cp, rest), e') ↦
            let (us, w, c) = f cp room in
            let r = store_loop read write fuel rest (room - length us) (outlen + length us) in
            ground (
              arith,
              store_loop-len f fuel rest (room - length us) (outlen + length us) n
                  (outlen' + count cp),
              length-append us r.1,
            )
      ]

utf16-Fits : Fits utf16_write_increment utf16_count_len
utf16-Fits cp room h = Utf16.Laws.utf16_write_increment_count cp room h

utf16-Refuses : Refuses utf16_write_increment utf16_count_len
utf16-Refuses cp room h =
    Utf16.Laws.utf16_write_increment_full cp room (omega (arith, Utf16.Laws.utf16_count_len_lem cp))

utf8-Fits : Fits utf8_store utf8_count_len
utf8-Fits cp room h =
    (utf8_write_increment cp room, refl, Utf8.Laws.utf8_write_increment_count cp room h)

-- For any input, well-formed or not: if the call without a buffer returns n, then `utf8_to_utf16`
-- stores n units and returns n where the buffer holds them, and returns -1 where it does not.
pub utf8_to_utf16_room :
    (src : List ℕ) (dstlen n : ℕ)
    → (utf8_to_utf16 src none).0 ≡ len n
    → let r = utf8_to_utf16 src (some dstlen) in
      (n ≤ dstlen → (r.0 ≡ len n) × (length r.1 ≡ n)) × (dstlen < n → r.0 ≡ fail)
unfolding utf8_to_utf16 convert
utf8_to_utf16_room src dstlen n e = (
  λ h. ground (
    arith,
    store_loop-Fits utf8_read_increment utf16_write_increment utf16_count_len utf16-Fits
        (length src) src dstlen 0 n e,
  ),
  λ h.
      store_loop-fail utf8_read_increment utf16_write_increment utf16_count_len utf16-Fits
        utf16-Refuses (length src) src dstlen 0 n e (omega arith),
)

-- For any input on which the call without a buffer returns n, `utf16_to_utf8` never returns -1 for
-- want of room: where the buffer holds n bytes it stores and returns n, and where it does not it
-- returns the number of bytes that it stored, which is within the buffer and below n.
pub utf16_to_utf8_room :
    (src : List ℕ) (dstlen n : ℕ)
    → (utf16_to_utf8 src none).0 ≡ len n
    → let r = utf16_to_utf8 src (some dstlen) in
      (n ≤ dstlen → (r.0 ≡ len n) × (length r.1 ≡ n))
      × (dstlen < n → (r.0 ≡ len (length r.1)) × (length r.1 ≤ dstlen))
unfolding utf16_to_utf8 convert
utf16_to_utf8_room src dstlen n e = (
  λ h. ground (
    arith,
    store_loop-Fits utf16_read_increment utf8_store utf8_count_len utf8-Fits (length src) src dstlen
        0 n e,
  ),
  λ h. ground (
    arith,
    store_loop-len utf16_read_increment utf8_store utf8_count_len
        (λ cp room. (utf8_write_increment cp room, refl, Utf8.Laws.utf8_write_increment-le cp room))
        (length src) src dstlen 0 n 0 e,
  ),
)
