-- ===== src/Vfs/Paths/Rounds.antt =====
-- src/syscall/vfs.c: a round of the loop takes the first name of the path.
use foreign_linux.Base.{
  ℕ, suc, ◌+◌, ◌<◌, ◌≡◌, ◌≢◌, ◌⊎◌, refl, sym, ap, ◌∙◌, Option, none, some, List, [], ◌∷◌, ◌++◌,
  arith, ◌==◌, length, Bool-cases, Option-cases, inl, inr, All,
}
use foreign_linux.Vfs.Mounts.Lies.{strip_prefix-some, strip_prefix-append}
use foreign_linux.Vfs.Mounts.{slash, strip_prefix}
use foreign_linux.Vfs.Paths.{dot, take_component, Round, skip, parent, component, next_round}
use foreign_linux.Vfs.Paths.Names.{split, push, IsProper}

-- The names of a path whose first name is `name`, and whose rest begins with the slash behind it.
abbrev pub glue : (name rest : List ℕ) → List (List ℕ)
glue name [] = name ∷ []
glue name (d ∷ rest) = name ∷ split rest

pub record IsTaken (pathname name rest : List ℕ) : Type 0 where
  pub names : split pathname ≡ glue name rest
  pub no_slash : All (λ c. c ≢ slash) name
  pub lengths : length name + length rest ≡ length pathname
  pub whole : name ++ rest ≡ pathname
  pub at_slash : (d : ℕ) (r : List ℕ) → rest ≡ d ∷ r → d ≡ slash

push-glue : (c : ℕ) (name rest : List ℕ) → push c (glue name rest) ≡ glue (c ∷ name) rest
push-glue c name [] = refl
push-glue c name (d ∷ rest) = refl

head-eq : {a b : ℕ} {r t : List ℕ} → a ∷ r ≡ b ∷ t → a ≡ b
head-eq e = ground arith

take_component-IsTaken :
    (pathname : List ℕ) → IsTaken pathname (take_component pathname).0 (take_component pathname).1
unfolding take_component split
take_component-IsTaken [] = record {
  names = refl;
  no_slash = tt;
  lengths = refl;
  whole = refl;
  at_slash = λ d r e. ground arith;
}
take_component-IsTaken (c ∷ cs) =
    let t = take_component-IsTaken cs in
    elim (Bool-cases (c == slash)) [
      | inl e ↦
          rw (e, take_component, split)
            (record {
              names = rw (e, split) refl;
              no_slash = tt;
              lengths = omega arith;
              whole = refl;
              at_slash = λ d r f. sym (head-eq f) ∙ ground (arith, e);
            })
      | inr e ↦
          rw (e, take_component, split)
            (record {
              names =
                  rw (e, split, t.names) (push-glue c (take_component cs).0 (take_component cs).1);
              no_slash = (ground (arith, e), t.no_slash);
              lengths = omega (arith, t.lengths);
              whole = ap (λ x. c ∷ x) t.whole;
              at_slash = t.at_slash;
            })
    ]

-- What a round makes of a path that is not empty.
abbrev pub RoundOf : (pathname : List ℕ) → Round → Type 0
RoundOf pathname (skip rest) =
    ((split pathname ≡ [] ∷ split rest) ⊎ (split pathname ≡ (dot ∷ []) ∷ split rest))
    × (length rest < length pathname)
RoundOf pathname (parent rest) =
    (split pathname ≡ (dot ∷ dot ∷ []) ∷ split rest) × (length rest < length pathname)
RoundOf pathname (component name []) =
    (split pathname ≡ name ∷ []) × (name ≢ []) × All (λ c. c ≢ slash) name
RoundOf pathname (component name (d ∷ rest)) =
    (split pathname ≡ name ∷ split rest) × IsProper name × (length rest + 1 < length pathname)

split-slash : (r : List ℕ) → split (slash ∷ r) ≡ [] ∷ split r
unfolding split
split-slash r = refl

split-dot : (r : List ℕ) → split (dot ∷ slash ∷ r) ≡ (dot ∷ []) ∷ split r
unfolding split
split-dot r = refl

split-dots : (r : List ℕ) → split (dot ∷ dot ∷ slash ∷ r) ≡ (dot ∷ dot ∷ []) ∷ split r
unfolding split
split-dots r = refl

none-ne-some : {o : Option (List ℕ)} {r : List ℕ} → o ≡ none → o ≢ some r
none-ne-some e = λ f. ground arith

begins_not : (p s r : List ℕ) → strip_prefix p s ≡ none → s ≢ p ++ r
begins_not p s r e = λ f. none-ne-some e (ap (strip_prefix p) f ∙ strip_prefix-append p r)

-- The last case: the path has none of the three beginnings.
module _ (s name rest : List ℕ) (t : IsTaken s name rest) where
  behind_name :
      (front : List ℕ) (d : ℕ) (r : List ℕ) → name ≡ front → rest ≡ d ∷ r → s ≡ front ++ slash ∷ r
  behind_name front d r e f = sym t.whole ∙ rw (e, f, t.at_slash d r f) refl

  nonempty_name : s ≢ [] → strip_prefix (slash ∷ []) s ≡ none → name ≢ []
  nonempty_name n a = λ e. starts rest e refl
    where
      starts : (x : List ℕ) → name ≡ [] → rest ≡ x → ⊥
      starts [] e f = n (sym t.whole ∙ rw (e, f) refl)
      starts (d ∷ r) e f = begins_not (slash ∷ []) s r a (behind_name [] d r e f)

  name-IsProper :
      (d : ℕ) (r : List ℕ)
      → rest ≡ d ∷ r
      → s ≢ []
      → strip_prefix (slash ∷ []) s ≡ none
      → strip_prefix (dot ∷ slash ∷ []) s ≡ none
      → strip_prefix (dot ∷ dot ∷ slash ∷ []) s ≡ none
      → IsProper name
  name-IsProper d r f n a b c = record {
    nonempty = nonempty_name n a;
    not_dot = λ e. begins_not (dot ∷ slash ∷ []) s r b (behind_name (dot ∷ []) d r e f);
    not_dots =
        λ e. begins_not (dot ∷ dot ∷ slash ∷ []) s r c (behind_name (dot ∷ dot ∷ []) d r e f);
    no_slash = t.no_slash;
  }

  taken-RoundOf :
      s ≢ []
      → strip_prefix (slash ∷ []) s ≡ none
      → strip_prefix (dot ∷ slash ∷ []) s ≡ none
      → strip_prefix (dot ∷ dot ∷ slash ∷ []) s ≡ none
      → (x : List ℕ) → rest ≡ x
      → RoundOf s (component name x)
  taken-RoundOf n a b c [] f = (t.names ∙ ap (glue name) f, nonempty_name n a, t.no_slash)
  taken-RoundOf n a b c (d ∷ r) f =
      let p = name-IsProper d r f n a b c in
      (
        t.names ∙ ap (glue name) f,
        p,
        shorter name p.nonempty (sym t.lengths ∙ ap (λ x. length name + length x) f),
      )
    where
      shorter :
          (x : List ℕ) → x ≢ [] → length s ≡ length x + suc (length r) → length r + 1 < length s
      shorter [] m e = absurd (m refl)
      shorter (y ∷ x) m e = omega (arith, e)

pub next_round-RoundOf : (s : List ℕ) → s ≢ [] → RoundOf s (next_round s)
unfolding next_round
next_round-RoundOf s n = elim (Option-cases (strip_prefix (slash ∷ []) s)) [
  | inr (r, e) ↦
      let f = strip_prefix-some (slash ∷ []) s r e in
      rw (e, next_round) (inl (ap split f ∙ split-slash r), omega (arith, ap length f))
  | inl a ↦ elim (Option-cases (strip_prefix (dot ∷ slash ∷ []) s)) [
    | inr (r, e) ↦
        let f = strip_prefix-some (dot ∷ slash ∷ []) s r e in
        rw (a, e, next_round) (inr (ap split f ∙ split-dot r), omega (arith, ap length f))
    | inl b ↦ elim (Option-cases (strip_prefix (dot ∷ dot ∷ slash ∷ []) s)) [
      | inr (r, e) ↦
          let f = strip_prefix-some (dot ∷ dot ∷ slash ∷ []) s r e in
          rw (a, b, e, next_round) ((ap split f ∙ split-dots r), omega (arith, ap length f))
      | inl c ↦
          rw (a, b, c, next_round)
            (taken-RoundOf s (take_component s).0 (take_component s).1 (take_component-IsTaken s) n
              a b c (take_component s).1 refl)
    ]
  ]
]
