-- ===== src/Format/Number/Digits.antt =====
-- What PRINT_NUM prints: digits that stand for the number, behind fill and sign.
use foreign_linux.Base.{
  ℕ, zero, suc, ◌+◌, ◌*◌, ◌/◌, ◌%◌, ◌^◌, ◌≤◌, ◌<◌, ◌≡◌, ◌≢◌, refl, ap, true, false, List, [], ◌∷◌,
  arith, length, get_or, ◌==◌, ==_iff, if◌then◌else◌,
}
use foreign_linux.Base.Bits.{holds_below, holds_below_sound}
use native.Mathlib.Nat.{pow-suc}
use foreign_linux.Format.Number.{CType, is_negative, lowercase, uppercase, digits_loop}

-- The digit that a character stands for.
unfoldable pub index : List ℕ → ℕ → ℕ
index [] c = 0
index (d ∷ ch) c = if d == c then 0 else index ch c + 1

-- The number of some digits, least first.
unfoldable pub value : List ℕ → ℕ → List ℕ → ℕ
value ch base [] = 0
value ch base (c ∷ cs) = index ch c + base * value ch base cs

abbrev pub IsAlphabet : ℕ → List ℕ → Type 0
IsAlphabet base ch = (d : ℕ) → d < base → index ch (get_or ch d 0) ≡ d

is_negative_mono : (t : CType) (y z : ℕ) → z ≤ y → is_negative t y ≡ false → is_negative t z ≡ false
is_negative_mono t y z h n = ground arith

module _ (t : CType) (base : ℕ) (ch : List ℕ) (two : 2 ≤ base) where
  div_half : (y : ℕ) → y / base * 2 ≤ y
  div_half y = grind arith

  -- One round of the loop.
  pub digits_loop-step :
      (fuel y : ℕ)
      → y ≢ 0
      → is_negative t y ≡ false
      → digits_loop t base ch (suc fuel) y
        ≡ get_or ch (y % base) 0 ∷ digits_loop t base ch fuel (y / base)
  unfolding digits_loop
  digits_loop-step fuel y ne n = ground arith

  pub digits_loop-zero : (fuel : ℕ) → digits_loop t base ch fuel 0 ≡ []
  unfolding digits_loop
  digits_loop-zero zero = refl
  digits_loop-zero (suc fuel) = refl

  -- An induction over the rounds: enough fuel is one unit for each bit.
  pub digits_loop-ind {κ} :
      (P : ℕ → List ℕ → Type κ)
      → P 0 []
      → ((y : ℕ) (cs : List ℕ) → y ≢ 0 → P (y / base) cs → P y (get_or ch (y % base) 0 ∷ cs))
      → (fuel y : ℕ) → y < 2 ^ fuel
      → is_negative t y ≡ false
      → P y (digits_loop t base ch fuel y)
  digits_loop-ind P p0 ps fuel zero h n = rw (digits_loop-zero fuel) p0
  digits_loop-ind P p0 ps zero (suc y) h n = absurd (omega arith)
  digits_loop-ind P p0 ps (suc fuel) (suc y) h n =
      rw (digits_loop-step fuel (suc y) (omega arith) n) (
        ps (suc y) _ (omega arith) (
          digits_loop-ind P p0 ps fuel (suc y / base)
            (omega (arith, div_half (suc y), pow-suc 2 fuel))
            (is_negative_mono t (suc y) (suc y / base) (omega (arith, div_half (suc y))) n)))

  -- The digits stand for the number, least first.
  pub digits_loop-value :
      IsAlphabet base ch
      → (fuel y : ℕ) → y < 2 ^ fuel
      → is_negative t y ≡ false
      → value ch base (digits_loop t base ch fuel y) ≡ y
  unfolding value
  digits_loop-value alphabet =
      digits_loop-ind (λ y cs. value ch base cs ≡ y) refl
        (λ y cs ne e. omega (arith, alphabet (y % base) (omega arith), ap (λ (v : ℕ). base * v) e))

  -- There are no more digits than bits.
  pub digits_loop-length :
      (fuel y k : ℕ)
      → y < 2 ^ fuel
      → is_negative t y ≡ false
      → y < 2 ^ k
      → length (digits_loop t base ch fuel y) ≤ k
  digits_loop-length fuel y k h n =
      digits_loop-ind (λ y cs. (k : ℕ) → y < 2 ^ k → length cs ≤ k) (λ k b. omega arith) more fuel y
        h n k
    where
      more :
          (y : ℕ) (cs : List ℕ)
          → y ≢ 0
          → ((k : ℕ) → y / base < 2 ^ k → length cs ≤ k)
          → (k : ℕ) → y < 2 ^ k
          → suc (length cs) ≤ k
      more y cs ne ih zero b = absurd (omega arith)
      more y cs ne ih (suc k) b = omega (arith, ih k (omega (arith, div_half y, pow-suc 2 k)))

lowercase_table : holds_below 16 (λ d. index lowercase (get_or lowercase d 0) == d) ≡ true
unfolding holds_below index
lowercase_table = refl

uppercase_table : holds_below 16 (λ d. index uppercase (get_or uppercase d 0) == d) ≡ true
unfolding holds_below index
uppercase_table = refl

-- Both digit strings of the file serve every base up to 16.
pub lowercase-IsAlphabet : (base : ℕ) → base ≤ 16 → IsAlphabet base lowercase
lowercase-IsAlphabet base h d lt =
    (==_iff _ d).0 (holds_below_sound 16 _ d lowercase_table (omega arith))

pub uppercase-IsAlphabet : (base : ℕ) → base ≤ 16 → IsAlphabet base uppercase
uppercase-IsAlphabet base h d lt =
    (==_iff _ d).0 (holds_below_sound 16 _ d uppercase_table (omega arith))
