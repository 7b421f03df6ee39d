-- ===== src/Format/Scan.antt =====
-- kvsscanf of src/vsscanf.c and ksscanf of src/str.c.
-- A pointer into the input is the list of the bytes from it on; past the end stands the zero.
-- A pointer into the format likewise. The values that go through the `out` pointers are listed in
-- order, each as a 32-bit pattern.
pub mod Laws
use foreign_linux.Base.{
  ℕ, zero, suc, ◌+◌, ◌-◌, ◌%◌, ◌^◌, Bool, true, false, ◌||◌, Option, none, some, List, [], ◌∷◌,
  ◌++◌, ◌==◌, if◌then◌else◌, length, get_or, drop,
}
use foreign_linux.Format.Number.{CType, int32, uint32, parse_num}

unfoldable pub kisspace : ℕ → Bool
kisspace ch = ch == b' ' || ch == 0x0c || ch == b'\n' || ch == b'\r' || ch == b'\t' || ch == 0x0b

-- `done count stores` is a return. `past_format` is a read behind the terminating zero of the
-- format, which C leaves undefined, and `running` says that the fuel ended first.
pub data Scan : Type 0 where
  done : ℕ → List ℕ → Scan
  past_format running : Scan

pub record State : Type 0 where
  pub buffer : List ℕ
  pub buf : List ℕ
  pub count : ℕ
  pub stores : List ℕ

abbrev pub peek : List ℕ → ℕ
peek s = get_or s 0 0

-- `while (kisspace(*buf)) buf++`
unfoldable pub skip_space : List ℕ → List ℕ
skip_space [] = []
skip_space (c ∷ s) = let rest = skip_space s in if kisspace c then rest else c ∷ s

-- `buf - buffer` as an `int`: both point into one string.
abbrev pub distance : State → ℕ
distance s = (length s.buffer + 2 ^ 32 - length s.buf) % 2 ^ 32

-- PARSE_NUM and `count++`, or `return count`.
unfoldable pub scan_num : CType → State → Option State
scan_num t s = elim (parse_num t s.buf) [
  | none ↦ none
  | some (v, buf') ↦
      some (record s { buf = buf'; count = s.count + 1; stores = s.stores ++ (v ∷ []) })
]

-- `switch (*format++)`: `none` is `return count`. At `%%` the pointer `buffer` is compared.
unfoldable pub conversion : ℕ → State → Option State
unfolding scan_num
conversion c s =
    if c == b'%'
    then (if peek s.buffer == b'%' then some (record s { buffer = drop 1 s.buffer }) else none)
    else if c == b'n'
    then some (record s { stores = s.stores ++ (distance s ∷ []) })
    else if c == b'd'
    then scan_num int32 s
    else if c == b'u'
    then scan_num uint32 s
    else some s

-- What a round comes to: go on with a state and a format, or leave the loop.
pub data Round : Type 0 where
  go : State → List ℕ → Round
  leave : Round
  overrun : Round

-- One round at `*format == c`, with `format + 1` behind it. White space does not move `format`.
-- The comparison of any other character moves `buffer`.
unfoldable pub scan_round : ℕ → List ℕ → State → Round
unfolding conversion
scan_round c format s =
    if kisspace c
    then go (record s { buf = skip_space s.buf }) (c ∷ format)
    else if c == b'%'
    then elim format [
      | [] ↦ overrun
      | d ∷ format' ↦ elim (conversion d s) [ none ↦ leave | some s' ↦ go s' format' ]
    ]
    else if peek s.buffer == c
    then go (record s { buffer = drop 1 s.buffer }) format
    else leave

abbrev pub returned : State → Scan
returned s = done s.count s.stores

unfoldable pub scan_loop : ℕ → List ℕ → State → Scan
unfolding scan_round
scan_loop fuel [] s = returned s
scan_loop zero (c ∷ format) s = running
scan_loop (suc fuel) (c ∷ format) s = elim (scan_round c format s) [
  | go s' format' ↦ scan_loop fuel format' s'
  | leave ↦ returned s
  | overrun ↦ past_format
]

-- One round for each byte of the format.
unfoldable pub kvsscanf : List ℕ → List ℕ → Scan
kvsscanf buffer format =
    scan_loop (length format) format
      (record { buffer = buffer; buf = buffer; count = 0; stores = [] })
