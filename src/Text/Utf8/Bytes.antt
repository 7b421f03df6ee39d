-- ===== src/Text/Utf8/Bytes.antt =====
-- The bit tests and bit joins of the UTF-8 code, as arithmetic on a byte.
use foreign_linux.Base.{
  ℕ, ◌+◌, ◌<◌, ◌≡◌, refl, ◌&&◌, bit_and, bit_or, leb, ltb, ◌==◌, ==_iff, Bool, true, arith,
}
use foreign_linux.Base.Bits.{holds_below, holds_below_sound}
use mathlib.Core.Bool.{beq}

eq_of_beq : (a b : Bool) → beq a b ≡ true → a ≡ b
eq_of_beq a b h = ground arith

is_ascii_table : holds_below 256 (λ a. beq (bit_and a 0x80 == 0) (ltb a 128)) ≡ true
unfolding holds_below
is_ascii_table = refl

-- `(a & 0x80) == 0`
pub is_ascii : (a : ℕ) → a < 256 → (bit_and a 0x80 == 0) ≡ ltb a 128
is_ascii a h = eq_of_beq _ _ (holds_below_sound 256 _ a is_ascii_table h)

is_lead_2_table :
    holds_below 256 (λ a. beq (bit_and a 0xe0 == 0xc0) (leb 192 a && ltb a 224)) ≡ true
unfolding holds_below
is_lead_2_table = refl

pub is_lead_2 : (a : ℕ) → a < 256 → (bit_and a 0xe0 == 0xc0) ≡ (leb 192 a && ltb a 224)
is_lead_2 a h = eq_of_beq _ _ (holds_below_sound 256 _ a is_lead_2_table h)

is_lead_3_table :
    holds_below 256 (λ a. beq (bit_and a 0xf0 == 0xe0) (leb 224 a && ltb a 240)) ≡ true
unfolding holds_below
is_lead_3_table = refl

pub is_lead_3 : (a : ℕ) → a < 256 → (bit_and a 0xf0 == 0xe0) ≡ (leb 224 a && ltb a 240)
is_lead_3 a h = eq_of_beq _ _ (holds_below_sound 256 _ a is_lead_3_table h)

is_lead_4_table :
    holds_below 256 (λ a. beq (bit_and a 0xf8 == 0xf0) (leb 240 a && ltb a 248)) ≡ true
unfolding holds_below
is_lead_4_table = refl

pub is_lead_4 : (a : ℕ) → a < 256 → (bit_and a 0xf8 == 0xf0) ≡ (leb 240 a && ltb a 248)
is_lead_4 a h = eq_of_beq _ _ (holds_below_sound 256 _ a is_lead_4_table h)

-- A mark over a payload that leaves its bits free is a sum.
or_80_table : holds_below 64 (λ x. bit_or 0x80 x == 128 + x) ≡ true
unfolding holds_below
or_80_table = refl

pub or_80 : (x : ℕ) → x < 64 → bit_or 0x80 x ≡ 128 + x
or_80 x h = (==_iff _ _).0 (holds_below_sound 64 _ x or_80_table h)

or_c0_table : holds_below 32 (λ x. bit_or 0xc0 x == 192 + x) ≡ true
unfolding holds_below
or_c0_table = refl

pub or_c0 : (x : ℕ) → x < 32 → bit_or 0xc0 x ≡ 192 + x
or_c0 x h = (==_iff _ _).0 (holds_below_sound 32 _ x or_c0_table h)

or_e0_table : holds_below 16 (λ x. bit_or 0xe0 x == 224 + x) ≡ true
unfolding holds_below
or_e0_table = refl

pub or_e0 : (x : ℕ) → x < 16 → bit_or 0xe0 x ≡ 224 + x
or_e0 x h = (==_iff _ _).0 (holds_below_sound 16 _ x or_e0_table h)

or_f0_table : holds_below 8 (λ x. bit_or 0xf0 x == 240 + x) ≡ true
unfolding holds_below
or_f0_table = refl

pub or_f0 : (x : ℕ) → x < 8 → bit_or 0xf0 x ≡ 240 + x
or_f0 x h = (==_iff _ _).0 (holds_below_sound 8 _ x or_f0_table h)
