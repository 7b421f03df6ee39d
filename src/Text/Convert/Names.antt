-- ===== src/Text/Convert/Names.antt =====
-- File names: the transformed characters, and the way back.
use foreign_linux.Base.{
  ℕ, ◌%◌, ◌≤◌, ◌<◌, ◌≡◌, ◌≢◌, ◌⊎◌, refl, ap, Bool, true, false, ◌&&◌, ◌||◌, List, [], ◌∷◌, ◌++◌,
  arith, length, All, leb, ltb, ◌==◌, if◌then◌else◌, Bool-cases, inl, inr,
}
use foreign_linux.Base.Bits.{holds_below, holds_below_sound, and_127}
use mathlib.Core.List.{map}
use native.Mathlib.Decide.{ℕ_discrete}
use foreign_linux.Text.Utf8
use foreign_linux.Text.Utf8.{utf8_count_len}
use foreign_linux.Text.Utf8.Laws.{max_cp, utf8_count_len_lem}
use foreign_linux.Text.Utf16
use foreign_linux.Text.Utf16.Laws.{IsScalar, utf16_write_increment_lem, utf16_count_len_lem}
use foreign_linux.Text.Convert.{transform, to_filename, to_filename_counted, restore, of_filename}
use foreign_linux.Text.Convert.Rules.{encode_all}
use foreign_linux.Text.Convert.Exact.{utf8}

pub encode_all-map :
    (enc : ℕ → List ℕ) (g : ℕ → ℕ) (cps : List ℕ)
    → encode_all (λ cp. enc (g cp)) cps ≡ encode_all enc (map g cps)
unfolding encode_all
encode_all-map enc g [] = refl
encode_all-map enc g (cp ∷ cps) = ap (λ l. enc (g cp) ++ l) (encode_all-map enc g cps)

-- A character that Windows does not take in a name, or that separates its parts in Linux.
abbrev pub is_forbidden : ℕ → Bool
is_forbidden u =
    (leb 1 u && ltb u 32)
    || u == b'"'
    || u == b'*'
    || u == b'/'
    || u == b':'
    || u == b'<'
    || u == b'>'
    || u == b'?'
    || u == b'|'

pub allowed_units :
    (x : ℕ) → is_forbidden x ≡ false → All (λ u. is_forbidden u ≡ false) (Utf16.Laws.encode x)
unfolding Utf16.Laws.encode
allowed_units x h = elim (Bool-cases (leb x 0xffff)) [
  | inl s ↦ rw s (h, tt)
  | inr b ↦ rw b (ground arith, (ground arith, tt))
]

module _ (past : ℕ) where
  -- What the table holds: an ASCII character, or one of 128 private ones.
  entry_ok : ℕ → Bool
  entry_ok c =
      let t = transform past c in
      (ltb t 128 || (leb 0xf000 t && leb t 0xf07f))
      && (c == b'\\' || of_filename past t == c)
      && (if is_forbidden t then false else true)

  entries_ok : holds_below 128 entry_ok ≡ true
  unfolding holds_below entry_ok of_filename restore transform
  entries_ok = refl

  pub entry_lem :
      (c : ℕ)
      → c < 128
      → let t = transform past c in
        ((t < 128) ⊎ ((0xf000 ≤ t) × (t ≤ 0xf07f)))
        × ((c ≡ b'\\') ⊎ (of_filename past t ≡ c))
        × (is_forbidden t ≡ false)
  unfolding entry_ok
  entry_lem c h = ground (arith, holds_below_sound 128 entry_ok c entries_ok h)

  -- A character that is its own file name character, or that the table brings back.
  pub record IsPlain (cp : ℕ) : Type 0 where
    pub scalar : IsScalar cp
    pub not_past : cp ≢ 0x80
    pub not_backslash : cp ≢ b'\\'
    pub not_private : (cp < 0xf000) ⊎ (0xf07f < cp)

  pub to_filename_low : (cp : ℕ) → cp < 128 → to_filename past cp ≡ transform past cp
  unfolding to_filename
  to_filename_low cp h = ground arith

  pub to_filename_high : (cp : ℕ) → 128 < cp → to_filename past cp ≡ cp
  unfolding to_filename
  to_filename_high cp h = ground arith

  pub to_filename_counted_lem :
      (cp : ℕ) → cp ≢ 0x80 → to_filename_counted past cp ≡ to_filename past cp
  unfolding to_filename to_filename_counted
  to_filename_counted_lem cp h = ground arith

  pub of_filename_high : (x : ℕ) → 128 ≤ x → (x < 0xf000) ⊎ (0xf07f < x) → of_filename past x ≡ x
  unfolding of_filename restore
  of_filename_high x h k = ground (arith, entry_lem (x % 128), and_127 x)

  pub of_filename-to_filename : (cp : ℕ) → IsPlain cp → of_filename past (to_filename past cp) ≡ cp
  of_filename-to_filename cp p =
      ground (arith, to_filename_low cp, to_filename_high cp, of_filename_high cp, entry_lem cp)

  -- The transformed character is a scalar value, and the file name may hold it.
  pub to_filename-IsScalar :
      (cp : ℕ)
      → IsScalar cp
      → cp ≢ 0x80
      → IsScalar (to_filename past cp) × (is_forbidden (to_filename past cp) ≡ false)
  to_filename-IsScalar cp p h =
      ground (arith, to_filename_low cp, to_filename_high cp, entry_lem cp)

  pub of_name : (cps : List ℕ) → All IsPlain cps → All IsScalar (map (to_filename past) cps)
  of_name [] v = tt
  of_name (cp ∷ cps) v = ((to_filename-IsScalar cp v.0.scalar v.0.not_past).0, of_name cps v.1)

  pub restored :
      (cps : List ℕ)
      → All IsPlain cps
      → encode_all (λ x. Utf8.Laws.encode (of_filename past x)) (map (to_filename past) cps)
        ≡ utf8 cps
  unfolding encode_all
  restored [] v = refl
  restored (cp ∷ cps) v = rw (of_filename-to_filename cp v.0, restored cps v.1)

  pub of_filename-le : (x : ℕ) → x ≤ max_cp → of_filename past x ≤ max_cp
  unfolding of_filename restore
  of_filename-le x h = ground (arith, and_127 x)

  of_filename_ne : (x : ℕ) → x ≢ b'\\' → of_filename past x ≡ restore past x
  unfolding of_filename
  of_filename_ne x h = ground arith

  of_filename_backslash :
      utf8_count_len (restore past b'\\') ≡ length (Utf8.Laws.encode (of_filename past b'\\'))
  unfolding of_filename restore transform Utf8.Laws.encode
  of_filename_backslash = utf8_count_len_lem b'\\'

  -- The counting loop leaves a backslash as it is, which takes one byte as a slash does.
  pub restore_count :
      (x : ℕ) → utf8_count_len (restore past x) ≡ length (Utf8.Laws.encode (of_filename past x))
  restore_count x = elim (ℕ_discrete x b'\\') [
    | yes e ↦ rw e of_filename_backslash
    | no ne ↦ rw (of_filename_ne x ne) (utf8_count_len_lem (restore past x))
  ]

  -- Every scalar value but U+0080, which the table does not hold.
  pub record IsNameChar (cp : ℕ) : Type 0 where
    pub scalar : IsScalar cp
    pub not_past : cp ≢ 0x80
