-- ===== src/Format/Print/Laws.antt =====
-- kvsprintf: the fuel is enough, and what it makes of text and of single conversions.
use foreign_linux.Base.{
  ℕ, zero, suc, ◌+◌, ◌-◌, ◌*◌, ◌≤◌, ◌≡◌, refl, Bool, true, false, Option, none, some, List, [], ◌∷◌,
  ◌++◌, arith, length, drop, ◌==◌, leb, ◌&&◌, if◌then◌else◌, All,
}
use mathlib.Core.Option
use foreign_linux.Format.Number.{int32, lowercase, print_num}
use foreign_linux.Format.Print.{
  Platform, Arg, num, str, Directive, emit, no_conversion, undefined, long_directive, conversion,
  width_loop, peek, directive, print_round, print_loop, kvsprintf,
}

length-drop-le {ℓ} : {A : Type ℓ} (n : ℕ) (l : List A) → length (drop n l) ≤ length l
length-drop-le zero l = omega arith
length-drop-le (suc n) [] = omega arith
length-drop-le (suc n) (x ∷ l) = omega (arith, length-drop-le n l)

length-width_loop : (width : ℕ) (f : List ℕ) → length (width_loop width f).1 ≤ length f
unfolding width_loop
length-width_loop width [] = omega arith
length-width_loop width (c ∷ f) = ground (arith, length-width_loop (width * 10 + (c - b'0')) f)

module _ (p : Platform) (width fillchar : ℕ) (f : List ℕ) (out format' : List ℕ)
    (args' : List Arg) where
  long_directive-le :
      (args : List Arg)
      → long_directive p width fillchar f args ≡ emit out format' args'
      → length format' ≤ length f
  unfolding long_directive
  long_directive-le [] h = ground arith
  long_directive-le (num n ∷ args) h = ground (arith, length-drop-le 1 f, length-drop-le 2 f)
  long_directive-le (str s ∷ args) h = ground arith
  long_directive-le (Arg.wstr s ∷ args) h = ground arith

  conversion-le :
      (c : ℕ) (args : List Arg)
      → conversion p width fillchar c f args ≡ emit out format' args'
      → length format' ≤ length f
  unfolding conversion
  conversion-le c [] h = ground arith
  conversion-le c (num n ∷ args) h = ground (arith, long_directive-le (num n ∷ args))
  conversion-le c (str s ∷ args) h = ground arith
  conversion-le c (Arg.wstr s ∷ args) h = ground arith

-- Text with no percent sign: each newline gets a carriage return in front.
unfoldable pub crlf : List ℕ → List ℕ
crlf [] = []
crlf (c ∷ s) = if c == b'\n' then b'\r' ∷ c ∷ crlf s else c ∷ crlf s

abbrev pub IsText : List ℕ → Type 0
IsText = All (λ c. (c == b'%') ≡ false)

map_text :
    (c : ℕ) (text : List ℕ) (o : Option (List ℕ))
    → Option.map
        (λ r. (if c == b'\n' then b'\r' ∷ c ∷ r else c ∷ r))
        (Option.map (λ r. crlf text ++ r) o)
      ≡ Option.map (λ r. crlf (c ∷ text) ++ r) o
unfolding crlf
map_text c text none = refl
map_text c text (some r) = ground arith

map_nil : (o : Option (List ℕ)) → o ≡ Option.map (λ r. [] ++ r) o
map_nil none = refl
map_nil (some r) = refl

module _ (p : Platform) where
  -- A directive goes on behind the characters that it has read.
  directive-le :
      (format : List ℕ) (args : List Arg) (out format' : List ℕ) (args' : List Arg)
      → directive p format args ≡ emit out format' args'
      → length format' ≤ length format
  unfolding directive
  directive-le format args out format' args' h =
      let zeros = peek format 0 == b'0' in
      let f = if zeros then drop 1 format else format in
      let wide = leb b'1' (peek f 0) && leb (peek f 0) b'9' in
      let parsed = if wide then width_loop 0 f else (0, f) in
      omega (
        arith,
        conversion-le p parsed.0 (if zeros then b'0' else b' ') (drop 1 parsed.1) out format' args'
            (peek parsed.1 0) args h,
        length-drop-le 1 parsed.1,
        after_width wide f,
        after_zero zeros format,
      )
    where
      after_zero : (t : Bool) (g : List ℕ) → length (if t then drop 1 g else g) ≤ length g
      after_zero true g = length-drop-le 1 g
      after_zero false g = omega arith

      after_width :
          (t : Bool) (g : List ℕ) → length (if t then width_loop 0 g else (0, g)).1 ≤ length g
      after_width true g = length-width_loop 0 g
      after_width false g = omega arith

  -- A round reads the later rounds only at formats that are no longer than its own.
  print_round_cong :
      (k l : List ℕ → List Arg → Option (List ℕ)) (c : ℕ) (format : List ℕ) (args : List Arg)
      → ((format' : List ℕ) (args' : List Arg)
          → length format' ≤ length format
          → k format' args' ≡ l format' args')
      → (d : Directive) → directive p format args ≡ d
      → print_round p k c format args ≡ print_round p l c format args
  unfolding print_round
  print_round_cong k l c format args ih (emit out format' args') e = rw (
    e,
    ih format args (omega arith),
    ih format' args' (directive-le format args out format' args' e),
  )
  print_round_cong k l c format args ih no_conversion e = rw (e, ih format args (omega arith))
  print_round_cong k l c format args ih undefined e = rw (e, ih format args (omega arith))

  print_loop_two :
      (f g : ℕ) (format : List ℕ) (args : List Arg)
      → length format ≤ f
      → length format ≤ g
      → print_loop p f format args ≡ print_loop p g format args
  unfolding print_loop
  print_loop_two f g [] args h k = refl
  print_loop_two zero g (c ∷ format) args h k = absurd (omega arith)
  print_loop_two (suc f) zero (c ∷ format) args h k = absurd (omega arith)
  print_loop_two (suc f) (suc g) (c ∷ format) args h k =
      print_round_cong (print_loop p f) (print_loop p g) c format args
        (λ format' args' le. print_loop_two f g format' args' (omega arith) (omega arith))
        (directive p format args) refl

  -- More fuel than there are bytes of format changes nothing: the loop always ends by its own test.
  pub print_loop_fuel :
      (fuel : ℕ) (format : List ℕ) (args : List Arg)
      → length format ≤ fuel
      → print_loop p fuel format args ≡ kvsprintf p format args
  unfolding kvsprintf
  print_loop_fuel fuel format args h =
      print_loop_two fuel (length format) format args h (omega arith)

  -- Text before a format is stored as it is, but for its newlines, and then the rest of the format
  -- is worked off with the same arguments.
  pub kvsprintf-text :
      (text format : List ℕ) (args : List Arg)
      → IsText text
      → kvsprintf p (text ++ format) args
        ≡ Option.map (λ r. crlf text ++ r) (kvsprintf p format args)
  unfolding kvsprintf print_loop crlf
  kvsprintf-text [] format args t = map_nil (kvsprintf p format args)
  kvsprintf-text (c ∷ text) format args t =
      rw (t.0, kvsprintf-text text format args t.1) (map_text c text (kvsprintf p format args))

  -- `%d` alone prints its argument by PRINT_NUM, as an `int32_t` in decimal and without fill.
  pub kvsprintf_decimal :
      (x : ℕ)
      → kvsprintf p (b'%' ∷ b'd' ∷ []) (num x ∷ [])
        ≡ some (print_num int32 10 lowercase x 0 b' ' ++ [])
  unfolding kvsprintf print_loop print_round directive conversion width_loop
  kvsprintf_decimal x = refl
