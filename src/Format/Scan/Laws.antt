-- ===== src/Format/Scan/Laws.antt =====
-- When the loop of kvsscanf ends, and what one conversion does.
use foreign_linux.Base.{
  ℕ, zero, suc, ◌+◌, ◌-◌, ◌%◌, ◌^◌, ◌≤◌, ◌≡◌, ◌≢◌, ◌⊎◌, refl, ap, Bool, true, false, none, some,
  List, [], ◌∷◌, arith, length, ◌==◌, All, Bool-cases, inl, inr, if◌then◌else◌,
}
use foreign_linux.Format.Number.{CType, int32, uint32, parse_num}
use foreign_linux.Format.Scan.{
  kisspace, done, past_format, running, State, skip_space, scan_num, conversion, Round, go, leave,
  overrun, scan_round, scan_loop, kvsscanf, returned,
}

-- At white space the loop never moves on: whatever the fuel, the run is not over.
pub scan_loop_space :
    (fuel c : ℕ) (format : List ℕ) (s : State)
    → kisspace c ≡ true
    → scan_loop fuel (c ∷ format) s ≡ running
unfolding scan_loop scan_round
scan_loop_space zero c format s h = refl
scan_loop_space (suc fuel) c format s h =
    ground (arith, scan_loop_space fuel c format (record s { buf = skip_space s.buf }))

abbrev pub NoSpace : List ℕ → Type 0
NoSpace = All (λ c. kisspace c ≡ false)

-- How a loop goes on, or stops.
pub scan_loop-go :
    (fuel c : ℕ) (format format' : List ℕ) (s s' : State)
    → scan_round c format s ≡ go s' format'
    → scan_loop (suc fuel) (c ∷ format) s ≡ scan_loop fuel format' s'
unfolding scan_loop
scan_loop-go fuel c format format' s s' e = rw (e, scan_loop)

pub scan_loop-leave :
    (fuel c : ℕ) (format : List ℕ) (s : State)
    → scan_round c format s ≡ leave
    → scan_loop (suc fuel) (c ∷ format) s ≡ returned s
unfolding scan_loop
scan_loop-leave fuel c format s e = rw (e, scan_loop)

pub scan_loop-overrun :
    (fuel c : ℕ) (format : List ℕ) (s : State)
    → scan_round c format s ≡ overrun
    → scan_loop (suc fuel) (c ∷ format) s ≡ past_format
unfolding scan_loop
scan_loop-overrun fuel c format s e = rw (e, scan_loop)

-- A round on any other character leaves `format + 1`, or the byte after that.
round_moves :
    (c : ℕ) (format format' : List ℕ) (s s' : State)
    → kisspace c ≡ false
    → scan_round c format s ≡ go s' format'
    → (format ≡ format') ⊎ ((d : ℕ) × (format ≡ d ∷ format'))
unfolding scan_round
round_moves c [] format' s s' h e = ground arith
round_moves c (d ∷ format) format' s s' h e = elim (Bool-cases (c == b'%')) [
  | inl p ↦ inr (d, ground arith)
  | inr p ↦ inl (ground arith)
]

ends_by :
    (fuel c : ℕ) (format : List ℕ) (s : State)
    → NoSpace (c ∷ format)
    → length format ≤ fuel
    → ((format' : List ℕ) (s' : State)
        → NoSpace format'
        → length format' ≤ fuel
        → scan_loop fuel format' s' ≢ running)
    → (r : Round) → scan_round c format s ≡ r
    → scan_loop (suc fuel) (c ∷ format) s ≢ running
ends_by fuel c format s h f ih (go s' format') e =
    rw (scan_loop-go fuel c format format' s s' e) (elim (round_moves c format format' s s' h.0 e) [
      | inl e' ↦ ih format' s' (rw e' at h.1) (rw e' at f)
      | inr (d, e') ↦ ih format' s' (rw e' at h.1).1 (omega (arith, ap length e'))
    ])
ends_by fuel c format s h f ih leave e = rw (scan_loop-leave fuel c format s e) (λ x. cc)
ends_by fuel c format s h f ih overrun e = rw (scan_loop-overrun fuel c format s e) (λ x. cc)

-- For a format without white space the fuel of `kvsscanf` is enough: the loop ends.
pub scan_loop_ends :
    (fuel : ℕ) (format : List ℕ) (s : State)
    → NoSpace format
    → length format ≤ fuel
    → scan_loop fuel format s ≢ running
unfolding scan_loop
scan_loop_ends fuel [] s h f = λ x. cc
scan_loop_ends zero (c ∷ format) s h f = absurd (omega arith)
scan_loop_ends (suc fuel) (c ∷ format) s h f =
    ends_by fuel c format s h (omega arith)
      (λ format' s' h' f'. scan_loop_ends fuel format' s' h' f') (scan_round c format s) refl

-- `kvsscanf` returns, or reads past its format, for every format without white space; with a format
-- that begins with white space it never ends, whatever the input and the fuel.
pub kvsscanf_ends_iff_NoSpace :
    (buffer : List ℕ)
    → ((format : List ℕ) → NoSpace format → kvsscanf buffer format ≢ running)
      × ((fuel c : ℕ) (format : List ℕ) (s : State)
          → kisspace c ≡ true
          → scan_loop fuel (c ∷ format) s ≡ running)
unfolding kvsscanf
kvsscanf_ends_iff_NoSpace buffer =
    (λ format h. scan_loop_ends (length format) format _ h (omega arith), scan_loop_space)

abbrev at_start : List ℕ → State
at_start str = record { buffer = str; buf = str; count = 0; stores = [] }

-- `%d` for an `int32_t`, and `%u` for a `uint32_t`.
abbrev pub number_type : Bool → CType
number_type signed = if signed then int32 else uint32

abbrev pub letter : Bool → ℕ
letter signed = if signed then b'd' else b'u'

-- The first round of `%d%n` and `%u%n`, where a number is parsed and where it is not.
number_round :
    (signed : Bool) (str format : List ℕ) (v : ℕ) (rest : List ℕ)
    → parse_num (number_type signed) str ≡ some (v, rest)
    → scan_round b'%' (letter signed ∷ format) (at_start str)
      ≡ go (record { buffer = str; buf = rest; count = 1; stores = v ∷ [] }) format
unfolding scan_round conversion scan_num kisspace
number_round true str format v rest h = rw h
number_round false str format v rest h = rw h

number_fails :
    (signed : Bool) (str format : List ℕ)
    → parse_num (number_type signed) str ≡ none
    → scan_round b'%' (letter signed ∷ format) (at_start str) ≡ leave
unfolding scan_round conversion scan_num kisspace
number_fails true str format h = rw h
number_fails false str format h = rw h

-- `%d%n` or `%u%n`: the value and the length that was read, or nothing.
pub scan_number_lem :
    (signed : Bool) (str : List ℕ)
    → ((v : ℕ) (rest : List ℕ)
        → parse_num (number_type signed) str ≡ some (v, rest)
        → kvsscanf str (b'%' ∷ letter signed ∷ b'%' ∷ b'n' ∷ [])
          ≡ done 1 (v ∷ (length str + 2 ^ 32 - length rest) % 2 ^ 32 ∷ []))
      × (parse_num (number_type signed) str ≡ none
          → kvsscanf str (b'%' ∷ letter signed ∷ b'%' ∷ b'n' ∷ []) ≡ done 0 [])
unfolding kvsscanf scan_loop kisspace
scan_number_lem signed str = (
  λ v rest h.
      scan_loop-go 3 b'%' (letter signed ∷ b'%' ∷ b'n' ∷ []) (b'%' ∷ b'n' ∷ []) (at_start str) _
        (number_round signed str (b'%' ∷ b'n' ∷ []) v rest h),
  λ h.
      scan_loop-leave 3 b'%' (letter signed ∷ b'%' ∷ b'n' ∷ []) (at_start str)
        (number_fails signed str (b'%' ∷ b'n' ∷ []) h),
)
