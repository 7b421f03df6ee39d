-- ===== src/Format/Atoi/Laws.antt =====
-- katoi and katou on what they are meant for, and where they take one number for another.
use foreign_linux.Base.{
  ℕ, ◌+◌, ◌-◌, ◌*◌, ◌%◌, ◌^◌, ◌≤◌, ◌<◌, ◌≡◌, ◌≢◌, refl, ◌∙◌, Bool, true, false, Option, none, some,
  List, [], ◌∷◌, ◌++◌, arith, length, length-append, ◌==◌, if◌then◌else◌,
}
use foreign_linux.Format.Number.{int32, lowercase, print_num, parse_num, is_digit}
use foreign_linux.Format.Number.Magnitude.{IsPrintable}
use foreign_linux.Format.Number.Parse.{decimal, AllDigits, Ends}
use foreign_linux.Format.Number.RoundTrip.{parse_num-print_num, parse_unsigned, parse_wraps}
use foreign_linux.Format.Print.{Platform, num, kvsprintf}
use foreign_linux.Format.Print.Laws.{kvsprintf_decimal}
use foreign_linux.Format.Scan.{kvsscanf}
use foreign_linux.Format.Scan.Laws.{number_type, letter, scan_number_lem}
use foreign_linux.Format.Atoi.{katoi, katou, verdict}

-- The two functions by the sign of the type.
ato : Bool → List ℕ → Bool × Option ℕ
ato signed str = if signed then katoi str else katou str

ato-verdict :
    (signed : Bool) (str : List ℕ)
    → ato signed str ≡ verdict str (kvsscanf str (b'%' ∷ letter signed ∷ b'%' ∷ b'n' ∷ []))
unfolding ato katoi katou
ato-verdict true str = refl
ato-verdict false str = refl

-- A number up to the end of the string is accepted; one before anything else is not.
ato_lem :
    (signed : Bool) (str : List ℕ) (v : ℕ) (rest : List ℕ)
    → length str < 2 ^ 31
    → length rest ≤ length str
    → parse_num (number_type signed) str ≡ some (v, rest)
    → ato signed str ≡ (length rest == 0, some v)
ato_lem signed str v rest short le h =
    ato-verdict signed str ∙ rw ((scan_number_lem signed str).0 v rest h) (ground arith)

ato-none :
    (signed : Bool) (str : List ℕ)
    → parse_num (number_type signed) str ≡ none
    → ato signed str ≡ (false, none)
ato-none signed str h = ato-verdict signed str ∙ rw ((scan_number_lem signed str).1 h)

ato_whole :
    (signed : Bool) (str : List ℕ) (v : ℕ)
    → parse_num (number_type signed) str ≡ some (v, [])
    → ato signed str ≡ (true, some v)
ato_whole signed str v h =
    ato-verdict signed str ∙ rw ((scan_number_lem signed str).0 v [] h) (ground arith)

-- What `%d` prints for any `int` but the least one, `katoi` reads back.
pub katoi-kvsprintf :
    (p : Platform) (x : ℕ)
    → IsPrintable int32 x
    → (s : List ℕ) × (kvsprintf p (b'%' ∷ b'd' ∷ []) (num x ∷ []) ≡ some s)
      × (katoi s ≡ (true, some x))
unfolding ato
katoi-kvsprintf p x v = (
  print_num int32 10 lowercase x 0 b' ' ++ [],
  kvsprintf_decimal p x,
  ato_whole true _ x (parse_num-print_num int32 x b' ' [] refl v tt),
)

-- `katou` accepts a string of decimal digits whose number fits 32 bits, and stores that number; with
-- anything else behind the digits, in a string shorter than 2 ^ 31, it stores the number and
-- refuses.
pub katou_lem :
    (s rest : List ℕ)
    → s ≢ []
    → AllDigits s
    → Ends rest
    → decimal 0 s < 2 ^ 32
    → length (s ++ rest) < 2 ^ 31
    → katou (s ++ rest) ≡ (length rest == 0, some (decimal 0 s))
unfolding ato
katou_lem s rest ne a e h k =
    ato_lem false (s ++ rest) (decimal 0 s) rest k (omega (arith, length-append s rest))
      (parse_unsigned s rest ne a e h)

-- One digit more than fits: where the wrapped number is not below the number before that digit,
-- `katou` accepts the string and stores the wrapped number.
pub katou_wraps :
    (s : List ℕ) (d : ℕ)
    → s ≢ []
    → AllDigits s
    → is_digit d ≡ true
    → decimal 0 s < 2 ^ 32
    → decimal 0 s ≤ (decimal 0 s * 10 + d - b'0') % 2 ^ 32
    → katou (s ++ (d ∷ [])) ≡ (true, some ((decimal 0 s * 10 + d - b'0') % 2 ^ 32))
unfolding ato
katou_wraps s d ne a t h k = ato_whole false (s ++ (d ∷ [])) _ (parse_wraps s d ne a t h k)
