-- ===== src/Base/Bits.antt =====
-- Facts about the native bit operations at variables: a mask of low bits is a remainder.
use Prim.Native.Nat.{
  ℕ, zero, suc, ◌+◌, ◌*◌, ◌/◌, ◌%◌, ◌≤◌, ◌<◌, min, bit_and, digits, bit_and-bitwise,
}
use mathlib.Core.Path.{◌≡◌, refl, ◌∙◌}
use mathlib.Core.Bool.{Bool, true, ◌&&◌}
use native.Mathlib.Omega.{arith}

-- A test of the numbers below `bound`, run by evaluation.
unfoldable pub holds_below : (bound : ℕ) → (ℕ → Bool) → Bool
holds_below zero test = true
holds_below (suc bound) test = holds_below bound test && test bound

pub holds_below_sound :
    (bound : ℕ) (test : ℕ → Bool) (i : ℕ)
    → holds_below bound test ≡ true
    → i < bound
    → test i ≡ true
unfolding holds_below
holds_below_sound (suc bound) test i checked below = ground (arith, holds_below_sound bound test i)
holds_below_sound zero test i checked below = absurd (omega arith)

digits-zero : (fuel mask : ℕ) → digits (λ y. 0) min fuel 0 mask ≡ 0
digits-zero zero mask = refl
digits-zero (suc fuel) mask = refl

-- On any sufficient fuel, the digits that `mask` keeps of a number are its remainder by `m`.
IsMask : (mask m : ℕ) → Type 0
IsMask mask m = (fuel x : ℕ) → x ≤ fuel → digits (λ y. 0) min fuel x mask ≡ x % m

IsMask-empty : IsMask 0 1
unfolding IsMask
IsMask-empty fuel zero h = digits-zero fuel 0
IsMask-empty zero (suc x) h = absurd (omega arith)
IsMask-empty (suc fuel) (suc x) h = omega (arith, IsMask-empty fuel (suc x / 2) (omega arith))

-- One more bit: twice the remainder.
IsMask-double :
    (mask m : ℕ)
    → IsMask mask m
    → ((x : ℕ) → x / 2 % m * 2 + x % 2 ≡ x % (m + m))
    → IsMask (mask + mask + 1) (m + m)
unfolding IsMask
IsMask-double mask m keeps twice fuel zero h =
    digits-zero fuel (mask + mask + 1) ∙ omega (arith, keeps 0 0 (omega arith), twice 0)
IsMask-double mask m keeps twice zero (suc x) h = absurd (omega arith)
IsMask-double mask m keeps twice (suc fuel) (suc x) h =
    let half : (mask + mask + 1) / 2 ≡ mask = omega arith in
    rw half (omega (arith, keeps fuel (suc x / 2) (omega arith), twice (suc x)))

IsMask-1 : IsMask 1 2
IsMask-1 = IsMask-double 0 1 IsMask-empty (λ x. omega arith)

IsMask-3 : IsMask 3 4
IsMask-3 = IsMask-double 1 2 IsMask-1 (λ x. omega arith)

IsMask-7 : IsMask 7 8
IsMask-7 = IsMask-double 3 4 IsMask-3 (λ x. omega arith)

IsMask-15 : IsMask 15 16
IsMask-15 = IsMask-double 7 8 IsMask-7 (λ x. omega arith)

IsMask-31 : IsMask 31 32
IsMask-31 = IsMask-double 15 16 IsMask-15 (λ x. omega arith)

IsMask-63 : IsMask 63 64
IsMask-63 = IsMask-double 31 32 IsMask-31 (λ x. omega arith)

IsMask-127 : IsMask 127 128
IsMask-127 = IsMask-double 63 64 IsMask-63 (λ x. omega arith)

IsMask-255 : IsMask 255 256
IsMask-255 = IsMask-double 127 128 IsMask-127 (λ x. omega arith)

IsMask-511 : IsMask 511 512
IsMask-511 = IsMask-double 255 256 IsMask-255 (λ x. omega arith)

IsMask-1023 : IsMask 1023 1024
IsMask-1023 = IsMask-double 511 512 IsMask-511 (λ x. omega arith)

bit_and-IsMask : (mask m : ℕ) → IsMask mask m → (x : ℕ) → bit_and x mask ≡ x % m
unfolding IsMask
bit_and-IsMask mask m keeps x = bit_and-bitwise x mask ∙ keeps x x (omega arith)

pub and_15 : (x : ℕ) → bit_and x 15 ≡ x % 16
and_15 = bit_and-IsMask 15 16 IsMask-15

pub and_31 : (x : ℕ) → bit_and x 31 ≡ x % 32
and_31 = bit_and-IsMask 31 32 IsMask-31

pub and_63 : (x : ℕ) → bit_and x 63 ≡ x % 64
and_63 = bit_and-IsMask 63 64 IsMask-63

pub and_127 : (x : ℕ) → bit_and x 127 ≡ x % 128
and_127 = bit_and-IsMask 127 128 IsMask-127

pub and_1023 : (x : ℕ) → bit_and x 1023 ≡ x % 1024
and_1023 = bit_and-IsMask 1023 1024 IsMask-1023
