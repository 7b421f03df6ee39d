-- ===== src/Format/Print.antt =====
-- kvsprintf of src/vsprintf.c and ksprintf of src/str.c.
-- The format is the bytes before its terminating zero, and reads past them give that zero. The
-- arguments are a list; `none` is a call that C leaves undefined: an argument of another type, or
-- none.
pub mod Laws
use foreign_linux.Base.{
  ℕ, zero, suc, ◌+◌, ◌-◌, ◌*◌, ◌%◌, ◌^◌, Bool, true, false, ◌&&◌, Option, none, some, List, [], ◌∷◌,
  ◌++◌, leb, ◌==◌, if◌then◌else◌, length, get_or, drop,
}
use mathlib.Core.List.{map}
use mathlib.Core.Option
use foreign_linux.Format.Number.{
  CType, int32, uint32, int64, uint64, lowercase, uppercase, print_num, is_digit,
}

-- The two builds: the width of a pointer.
pub data Platform : Type 0 where
  x86 x64 : Platform

abbrev pub intptr : Platform → CType
intptr x86 = int32
intptr x64 = int64

abbrev pub uintptr : Platform → CType
uintptr x86 = uint32
uintptr x64 = uint64

abbrev pub sizeof_pointer : Platform → ℕ
sizeof_pointer x86 = 4
sizeof_pointer x64 = 8

-- A number is the bit pattern that `va_arg` reads; a text may be `NULL`.
pub data Arg : Type 0 where
  num : ℕ → Arg
  str : Option (List ℕ) → Arg
  wstr : Option (List ℕ) → Arg

-- What one `%` does: store characters and go on with a format, fall out of the switch, or undefined.
pub data Directive : Type 0 where
  emit : List ℕ → List ℕ → List Arg → Directive
  no_conversion undefined : Directive

abbrev with_num : List Arg → (ℕ → List ℕ) → List ℕ → Directive
with_num (num n ∷ args) k format = emit (k n) format args
with_num _ k format = undefined

abbrev with_str : List Arg → List ℕ → Directive
with_str (str (some s) ∷ args) format = emit s format args
with_str (str none ∷ args) format = emit [] format args
with_str _ format = undefined

-- Each wide character is cut to a byte.
abbrev with_wstr : List Arg → List ℕ → Directive
with_wstr (wstr (some s) ∷ args) format = emit (map (λ c. c % 2 ^ 8) s) format args
with_wstr (wstr none ∷ args) format = emit [] format args
with_wstr _ format = undefined

-- `f` after `switch (*f++)`; the characters that follow an `l`.
abbrev peek : List ℕ → ℕ → ℕ
peek f i = get_or f i 0

module _ (p : Platform) (width fillchar : ℕ) where
  abbrev number : CType → ℕ → List ℕ → List Arg → List ℕ → Directive
  number t base ch args format = with_num args (λ n. print_num t base ch n width fillchar) format

  abbrev pointer : List Arg → List ℕ → Directive
  pointer args format =
      with_num args (λ n. print_num (uintptr p) 16 lowercase n (sizeof_pointer p * 2) b'0') format

  -- The case of `l`, which falls through to that of `p`.
  long_directive : List ℕ → List Arg → Directive
  long_directive f args =
      if peek f 0 == b'd'
      then number (intptr p) 10 lowercase args (drop 1 f)
      else if peek f 0 == b'u'
      then number (uintptr p) 10 lowercase args (drop 1 f)
      else if peek f 0 == b'l' && peek f 1 == b'x'
      then number uint64 16 lowercase args (drop 2 f)
      else if peek f 0 == b'l' && peek f 1 == b'd'
      then number int64 10 lowercase args (drop 2 f)
      else if peek f 0 == b'l' && peek f 1 == b'u'
      then number uint64 10 lowercase args (drop 2 f)
      else pointer args f

  -- `switch (*f++)`: the character, what follows it, and the arguments.
  pub conversion : (c : ℕ) → List ℕ → List Arg → Directive
  unfolding long_directive
  conversion c f args =
      if c == b'%'
      then emit (b'%' ∷ []) f args
      else if c == b'c'
      then with_num args (λ n. n % 2 ^ 8 ∷ []) f
      else if c == b's'
      then with_str args f
      else if c == b'S'
      then with_wstr args f
      else if c == b'd'
      then number int32 10 lowercase args f
      else if c == b'u'
      then number uint32 10 lowercase args f
      else if c == b'o'
      then number uint32 8 lowercase args f
      else if c == b'x'
      then number uint32 16 lowercase args f
      else if c == b'X'
      then number uint32 16 uppercase args f
      else if c == b'l'
      then long_directive f args
      else if c == b'p'
      then pointer args f
      else no_conversion

-- `while (*f >= '0' && *f <= '9') width = width * 10 + (*f++ - '0')`
pub width_loop : ℕ → List ℕ → ℕ × List ℕ
width_loop width [] = (width, [])
width_loop width (c ∷ f) =
    let rest = width_loop (width * 10 + (c - b'0')) f in if is_digit c then rest else (width, c ∷ f)

module _ (p : Platform) where
  -- From the first character behind the `%`.
  pub directive : List ℕ → List Arg → Directive
  unfolding conversion width_loop
  directive format args =
      let zeros = peek format 0 == b'0' in
      let f = if zeros then drop 1 format else format in
      let wide = leb b'1' (peek f 0) && leb (peek f 0) b'9' in
      let parsed = if wide then width_loop 0 f else (0, f) in
      conversion p parsed.0 (if zeros then b'0' else b' ') (peek parsed.1 0) (drop 1 parsed.1) args

  -- One round of `while (*format)`: `rest` is what the later rounds store.
  pub print_round :
      (rest : List ℕ → List Arg → Option (List ℕ)) → ℕ → List ℕ → List Arg → Option (List ℕ)
  print_round rest c format args =
      if c == b'%'
      then elim (directive format args) [
        | emit out format' args' ↦ Option.map (λ r. out ++ r) (rest format' args')
        | no_conversion ↦ Option.map (λ r. c ∷ r) (rest format args)
        | undefined ↦ none
      ]
      else Option.map (λ r. (if c == b'\n' then b'\r' ∷ c ∷ r else c ∷ r)) (rest format args)

  -- `while (*format)`, on fuel.
  pub print_loop : ℕ → List ℕ → List Arg → Option (List ℕ)
  unfolding print_round
  print_loop fuel [] args = some []
  print_loop zero (c ∷ format) args = none
  print_loop (suc fuel) (c ∷ format) args = print_round (print_loop fuel) c format args

  -- The characters stored; their number is the return value.
  pub kvsprintf : List ℕ → List Arg → Option (List ℕ)
  kvsprintf format args = print_loop (length format) format args

  -- The string in `buf`: the terminating zero is stored behind the last character.
  pub ksprintf : List ℕ → List Arg → Option (List ℕ)
  ksprintf = kvsprintf
