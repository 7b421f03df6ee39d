-- ===== src/Format/Tests.antt =====
-- src/vsprintf.c, src/vsscanf.c and their clients in src/str.c at concrete strings.
use foreign_linux.Base.{
  ℕ, ◌-◌, ◌≡◌, ◌≢◌, inr, refl, true, some, List, [], ◌∷◌, ◌++◌, arith, length, replicate,
}
use mathlib.Core.List.{reverse}
use foreign_linux.Format.Number.{int32, lowercase, print_num, parse_num}
use foreign_linux.Format.Number.Digits.{value, index, lowercase-IsAlphabet}
use foreign_linux.Format.Number.Magnitude.{IsPrintable, magnitude, sign_of, print_num_lem}
use foreign_linux.Format.Number.RoundTrip.{parse_num-print_num}
use foreign_linux.Format.Print.{x64, num, kvsprintf}
use foreign_linux.Format.Scan.{State, running, kisspace, scan_loop, kvsscanf}
use foreign_linux.Format.Scan.Laws.{NoSpace, kvsscanf_ends_iff_NoSpace}
use foreign_linux.Format.Atoi.{katoi}
use foreign_linux.Format.Atoi.Laws.{katoi-kvsprintf}
use foreign_linux.Format.Strip.{IsTrimmed, strip, strip_lem}

abbrev minus_42 : ℕ
minus_42 = 4294967254

minus_42-IsPrintable : IsPrintable int32 minus_42
minus_42-IsPrintable = record { in_type = omega arith; not_least = inr (ground arith) }

print_num_lem_example :
    (digits : List ℕ) × (print_num int32 16 lowercase minus_42 6 b'0'
      ≡ replicate (6 - length (sign_of int32 minus_42 ++ digits)) b'0'
        ++ (sign_of int32 minus_42 ++ digits))
    × (value lowercase 16 (reverse digits) ≡ magnitude int32 minus_42)
unfolding index
print_num_lem_example =
    print_num_lem {t = int32} {x = minus_42} minus_42-IsPrintable 16 lowercase 6 b'0' (omega arith)
      (lowercase-IsAlphabet 16 (omega arith)) refl

parse_num-print_num_example :
    parse_num int32 (print_num int32 10 lowercase minus_42 0 b' ' ++ (b',' ∷ b'5' ∷ []))
    ≡ some (minus_42, b',' ∷ b'5' ∷ [])
parse_num-print_num_example =
    parse_num-print_num int32 minus_42 b' ' (b',' ∷ b'5' ∷ []) refl minus_42-IsPrintable refl

katoi-kvsprintf_example :
    (s : List ℕ) × (kvsprintf x64 (b'%' ∷ b'd' ∷ []) (num minus_42 ∷ []) ≡ some s)
    × (katoi s ≡ (true, some minus_42))
katoi-kvsprintf_example = katoi-kvsprintf x64 minus_42 minus_42-IsPrintable

-- 9999999999 is read as 1410065407.
abbrev nine_nines : List ℕ
nine_nines = replicate 9 b'9'

kvsscanf_ends_iff_NoSpace_example :
    ((format : List ℕ) → NoSpace format → kvsscanf (b'7' ∷ []) format ≢ running)
    × ((fuel c : ℕ) (format : List ℕ) (s : State)
        → kisspace c ≡ true
        → scan_loop fuel (c ∷ format) s ≡ running)
kvsscanf_ends_iff_NoSpace_example = kvsscanf_ends_iff_NoSpace (b'7' ∷ [])

strip_lem_example :
    ((s : List ℕ) → IsTrimmed s → strip (replicate 2 b' ' ++ s ++ replicate 1 b' ') ≡ s)
    × (strip (replicate 2 b' ') ≡ [])
strip_lem_example = strip_lem 2 1
