-- ===== src/Vfs/Paths/Names.antt =====
-- src/syscall/vfs.c: the names in a path and in a real path.
use foreign_linux.Base.{
  ℕ, ◌≡◌, ◌≢◌, refl, sym, ap, ◌∙◌, true, false, List, [], ◌∷◌, ◌++◌, arith, ltb, ◌==◌, length,
  if◌then◌else◌, Bool-cases, inl, inr, All,
}
use mathlib.Core.List.{reverse, reverse_aux, reverse-reverse}
use foreign_linux.Vfs.Mounts.{slash}
use foreign_linux.Vfs.Paths.{dot, remove_basename, strip_slash, normalize, or_slash}

abbrev pub push : ℕ → List (List ℕ) → List (List ℕ)
push c [] = (c ∷ []) ∷ []
push c (name ∷ names) = (c ∷ name) ∷ names

-- The names between the slashes of a path; some may be empty.
unfoldable pub split : (pathname : List ℕ) → List (List ℕ)
split [] = [] ∷ []
split (c ∷ cs) = let rest = split cs in if c == slash then [] ∷ rest else push c rest

-- A real path is a stack of names, the last one first, and each from its last byte on.
unfoldable pub join : List (List ℕ) → List ℕ
join [] = []
join (name ∷ st) = name ++ slash ∷ join st

-- Not empty, "." or "..", and without a slash.
pub record IsProper (name : List ℕ) : Type 0 where
  pub nonempty : name ≢ []
  pub not_dot : name ≢ dot ∷ []
  pub not_dots : name ≢ dot ∷ dot ∷ []
  pub no_slash : All (λ c. c ≢ slash) name

abbrev pub pop : List (List ℕ) → List (List ℕ)
pop [] = []
pop (name ∷ st) = st

remove-name :
    (name r : List ℕ) → All (λ c. c ≢ slash) name → remove_basename (name ++ slash ∷ r) ≡ r
unfolding remove_basename
remove-name [] r a = refl
remove-name (c ∷ name) r (n, a) =
    let e : (c == slash) ≡ false = ground arith in rw (e, remove_basename) (remove-name name r a)

pub remove_basename-join :
    (st : List (List ℕ)) → All IsProper st → remove_basename (join st) ≡ join (pop st)
unfolding join remove_basename
remove_basename-join [] a = refl
remove_basename-join (name ∷ st) (p, a) = remove-name name (join st) p.no_slash

pub strip_slash-join :
    (st : List (List ℕ)) → All IsProper st → strip_slash (or_slash (join st)) ≡ join st
unfolding join
strip_slash-join [] a = refl
strip_slash-join ([] ∷ st) (p, a) = absurd (p.nonempty refl)
strip_slash-join ((c ∷ name) ∷ st) (p, a) =
    let e : (c == slash) ≡ false = ground (arith, p.no_slash) in rw e refl

pub strip_slash_done : (st : List (List ℕ)) → All IsProper st → strip_slash (join st) ≡ join st
unfolding join
strip_slash_done [] a = refl
strip_slash_done ([] ∷ st) (p, a) = absurd (p.nonempty refl)
strip_slash_done ((c ∷ name) ∷ st) (p, a) =
    let e : (c == slash) ≡ false = ground (arith, p.no_slash) in rw e refl

-- A last name that is written and then normalized.
normalize-dot : (st : List (List ℕ)) → normalize (dot ∷ slash ∷ join st) ≡ join st
unfolding normalize
normalize-dot st = refl

long : (name r : List ℕ) → name ≢ [] → ltb 1 (length (name ++ slash ∷ r)) ≡ true
long [] r n = absurd (n refl)
long (c ∷ []) r n = ground arith
long (c ∷ d ∷ name) r n = ground arith

normalize-dots :
    (st : List (List ℕ)) → All IsProper st → normalize (dot ∷ dot ∷ slash ∷ join st) ≡ join (pop st)
unfolding normalize join
normalize-dots [] a = refl
normalize-dots (name ∷ st) (p, a) =
    rw (long name (join st) p.nonempty, normalize) (remove_basename-join (name ∷ st) (p, a))

normalize-proper :
    (name r : List ℕ) → IsProper name → normalize (name ++ slash ∷ r) ≡ name ++ slash ∷ r
unfolding normalize
normalize-proper [] r p = absurd (p.nonempty refl)
normalize-proper (a ∷ []) r p = ground (arith, p.not_dot)
normalize-proper (a ∷ b ∷ []) r p = ground (arith, p.not_dots, p.no_slash)
normalize-proper (a ∷ b ∷ c ∷ name) r p = ground (arith, p.no_slash)

All-reverse_aux :
    (P : ℕ → Type 0) (xs ys : List ℕ) → All P xs → All P ys → All P (reverse_aux xs ys)
All-reverse_aux P [] ys a b = b
All-reverse_aux P (x ∷ xs) ys (p, a) b = All-reverse_aux P xs (x ∷ ys) a (p, b)

reverse_back : (name front : List ℕ) → reverse name ≡ front → name ≡ reverse front
reverse_back name front e = sym (reverse-reverse name) ∙ ap reverse e

pub reverse-IsProper : (name : List ℕ) → IsProper name → IsProper (reverse name)
reverse-IsProper name p = record {
  nonempty = λ e. p.nonempty (reverse_back name [] e);
  not_dot = λ e. p.not_dot (reverse_back name (dot ∷ []) e);
  not_dots = λ e. p.not_dots (reverse_back name (dot ∷ dot ∷ []) e);
  no_slash = All-reverse_aux (λ c. c ≢ slash) name [] p.no_slash tt;
}

pub split-ne-nil : (p : List ℕ) → split p ≢ []
unfolding split
split-ne-nil [] = λ e. ground arith
split-ne-nil (c ∷ cs) = elim (Bool-cases (c == slash)) [
  | inl e ↦ rw (e, split) (λ f. ground arith)
  | inr e ↦ rw (e, split) (pushed (split cs))
]
  where
    pushed : (names : List (List ℕ)) → push c names ≢ []
    pushed [] = λ f. ground arith
    pushed (name ∷ names) = λ f. ground arith

-- What the last name can be.
pub data LastName : List ℕ → Type 0 where
  one_dot : LastName (dot ∷ [])
  two_dots : LastName (dot ∷ dot ∷ [])
  proper : {name : List ℕ} → IsProper name → LastName name

nil-ne-cons : {c : ℕ} {cs : List ℕ} → c ∷ cs ≢ []
nil-ne-cons = λ e. ground arith

head-ne : {a b : ℕ} {r t : List ℕ} → a ≢ b → a ∷ r ≢ b ∷ t
head-ne n = λ e. ground arith

pub last_name : (name : List ℕ) → name ≢ [] → All (λ c. c ≢ slash) name → LastName name
last_name [] n a = absurd (n refl)
last_name (c ∷ cs) n a = elim (Bool-cases (c == dot)) [
  | inr e ↦
      let d : c ≢ dot = ground (arith, e) in
      proper (record { nonempty = n; not_dot = head-ne d; not_dots = head-ne d; no_slash = a })
  | inl e ↦ let d : c ≡ dot = ground (arith, e) in rw d (after_dot cs (rw d at a))
]
  where
    after_dot : (cs : List ℕ) → All (λ c. c ≢ slash) (dot ∷ cs) → LastName (dot ∷ cs)
    after_dot [] a = one_dot
    after_dot (d ∷ []) a = elim (Bool-cases (d == dot)) [
      | inl e ↦ let f : d ≡ dot = ground (arith, e) in rw f two_dots
      | inr e ↦ proper (record {
        nonempty = nil-ne-cons;
        not_dot = λ f. ground arith;
        not_dots = λ f. ground (arith, e);
        no_slash = a;
      })
    ]
    after_dot (d ∷ b ∷ cs) a = proper (record {
      nonempty = nil-ne-cons;
      not_dot = λ f. ground arith;
      not_dots = λ f. ground arith;
      no_slash = a;
    })

-- The stack after the last name.
abbrev pub after_last : (name : List ℕ) → LastName name → List (List ℕ) → List (List ℕ)
after_last _ one_dot st = st
after_last _ two_dots st = pop st
after_last name (proper p) st = reverse name ∷ st

pub normalize-last :
    (name : List ℕ) (l : LastName name) (st : List (List ℕ))
    → All IsProper st
    → normalize (reverse name ++ slash ∷ join st) ≡ join (after_last name l st)
unfolding join
normalize-last name one_dot st a = normalize-dot st
normalize-last name two_dots st a = normalize-dots st a
normalize-last name (proper p) st a =
    normalize-proper (reverse name) (join st) (reverse-IsProper name p)
