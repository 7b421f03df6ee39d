-- ===== src/Rbtree/Order.antt =====
-- src/lib/rbtree.c: a tree as the list of its keys in order; adding a node inserts its key.
use foreign_linux.Base.{
  ℕ, ◌≤◌, ◌≡◌, refl, sym, ap, ◌∙◌, true, false, Option, none, some, List, [], ◌∷◌, ◌++◌,
  append_assoc, append-nil, arith, Bool-cases, inl, inr, ltb, if◌then◌else◌, All,
}
use foreign_linux.Rbtree.{
  Color, red, black, Tree, leaf, node, Context, top, left_of, right_of, rb_is_black, rb_set_color,
  plug, rb_add_fixup, descend, rb_add,
}

unfoldable pub inorder : Tree → List ℕ
inorder leaf = []
inorder (node c l k r) = inorder l ++ k ∷ inorder r

-- The keys of the parents and siblings before a node, and after it.
unfoldable pub before : Context → List ℕ
unfolding inorder
before top = []
before (left_of c k s ctx) = before ctx
before (right_of c s k ctx) = before ctx ++ inorder s ++ k ∷ []

unfoldable pub after : Context → List ℕ
unfolding inorder
after top = []
after (left_of c k s ctx) = k ∷ inorder s ++ after ctx
after (right_of c s k ctx) = after ctx

-- The keys of the whole tree around the keys `m`.
unfoldable pub around : List ℕ → Context → List ℕ
unfolding before after
around m ctx = before ctx ++ m ++ after ctx

pub around-left :
    (m : List ℕ) (c : Color) (k : ℕ) (s : Tree) (ctx : Context)
    → around m (left_of c k s ctx) ≡ around (m ++ k ∷ inorder s) ctx
unfolding around
around-left m c k s ctx = simp append_assoc refl

pub around-right :
    (m : List ℕ) (c : Color) (s : Tree) (k : ℕ) (ctx : Context)
    → around m (right_of c s k ctx) ≡ around (inorder s ++ k ∷ m) ctx
unfolding around
around-right m c s k ctx = simp append_assoc refl

pub inorder-plug : (t : Tree) (ctx : Context) → inorder (plug t ctx) ≡ around (inorder t) ctx
unfolding plug around before after inorder
inorder-plug t top = sym (append-nil (inorder t))
inorder-plug t (left_of c k s ctx) =
    inorder-plug (node c t k s) ctx ∙ sym (around-left (inorder t) c k s ctx)
inorder-plug t (right_of c s k ctx) =
    inorder-plug (node c s k t) ctx ∙ sym (around-right (inorder t) c s k ctx)

pub inorder-color : (c : Color) (u : Tree) → inorder (rb_set_color c u) ≡ inorder u
unfolding inorder
inorder-color c leaf = refl
inorder-color c (node d l k r) = refl

-- The keys of the tree that a call builds, if it builds one.
abbrev pub Keeps : Option Tree → List ℕ → Type 0
Keeps none m = Unit {0}
Keeps (some t) m = inorder t ≡ m

pub keep : (o : Option Tree) {m m' : List ℕ} → Keeps o m → m ≡ m' → Keeps o m'
keep none h e = tt
keep (some t) h e = h ∙ e

rb_add_fixup-inorder :
    (l : Tree) (k : ℕ) (r : Tree) (ctx : Context)
    → Keeps (rb_add_fixup l k r ctx) (around (inorder l ++ k ∷ inorder r) ctx)
unfolding rb_add_fixup plug inorder around before after
rb_add_fixup-inorder l k r top = sym (append-nil (inorder l ++ k ∷ inorder r))
rb_add_fixup-inorder l k r (left_of black p x ctx) =
    inorder-plug (node red l k r) (left_of black p x ctx)
rb_add_fixup-inorder l k r (right_of black x p ctx) =
    inorder-plug (node red l k r) (right_of black x p ctx)
rb_add_fixup-inorder l k r (left_of red p x top) = tt
rb_add_fixup-inorder l k r (right_of red x p top) = tt
rb_add_fixup-inorder l k r (left_of red p x (left_of c g u ctx)) =
    elim (Bool-cases (rb_is_black u)) [
      | inl t ↦
          rw (t, rb_add_fixup)
            (inorder-plug (node black (node red l k r) p (node red x g u)) ctx
              ∙ simp append_assoc refl)
      | inr t ↦
          rw (t, rb_add_fixup)
            (keep _
              (rb_add_fixup-inorder (node black (node red l k r) p x) g (rb_set_color black u) ctx)
              (simp (inorder-color, append_assoc) refl))
    ]
rb_add_fixup-inorder l k r (left_of red p x (right_of c u g ctx)) =
    elim (Bool-cases (rb_is_black u)) [
      | inl t ↦
          rw (t, rb_add_fixup)
            (inorder-plug (node black (node red u g l) k (node red r p x)) ctx
              ∙ simp append_assoc refl)
      | inr t ↦
          rw (t, rb_add_fixup)
            (keep _
              (rb_add_fixup-inorder (rb_set_color black u) g (node black (node red l k r) p x) ctx)
              (simp (inorder-color, append_assoc) refl))
    ]
rb_add_fixup-inorder l k r (right_of red x p (left_of c g u ctx)) =
    elim (Bool-cases (rb_is_black u)) [
      | inl t ↦
          rw (t, rb_add_fixup)
            (inorder-plug (node black (node red x p l) k (node red r g u)) ctx
              ∙ simp append_assoc refl)
      | inr t ↦
          rw (t, rb_add_fixup)
            (keep _
              (rb_add_fixup-inorder (node black x p (node red l k r)) g (rb_set_color black u) ctx)
              (simp (inorder-color, append_assoc) refl))
    ]
rb_add_fixup-inorder l k r (right_of red x p (right_of c u g ctx)) =
    elim (Bool-cases (rb_is_black u)) [
      | inl t ↦
          rw (t, rb_add_fixup)
            (inorder-plug (node black (node red u g x) p (node red l k r)) ctx
              ∙ simp append_assoc refl)
      | inr t ↦
          rw (t, rb_add_fixup)
            (keep _
              (rb_add_fixup-inorder (rb_set_color black u) g (node black x p (node red l k r)) ctx)
              (simp (inorder-color, append_assoc) refl))
    ]

-- A key is put before the first larger one.
unfoldable pub insert : ℕ → List ℕ → List ℕ
insert key [] = key ∷ []
insert key (x ∷ xs) = let rest = insert key xs in if ltb key x then key ∷ x ∷ xs else x ∷ rest

abbrev pub IsSorted : List ℕ → Type 0
IsSorted [] = Unit {0}
IsSorted (x ∷ xs) = All (λ y. x ≤ y) xs × IsSorted xs

All-here : (P : ℕ → Type 0) (L : List ℕ) (x : ℕ) (R : List ℕ) → All P (L ++ x ∷ R) → P x × All P R
All-here P [] x R (p, ps) = (p, ps)
All-here P (y ∷ L) x R (p, ps) = All-here P L x R ps

All-front : (P : ℕ → Type 0) (L R : List ℕ) → All P (L ++ R) → All P L
All-front P [] R a = tt
All-front P (y ∷ L) R (p, ps) = (p, All-front P L R ps)

pub IsSorted-parts :
    (L : List ℕ) (x : ℕ) (R : List ℕ)
    → IsSorted (L ++ x ∷ R)
    → All (λ y. y ≤ x) L × All (λ y. x ≤ y) R × IsSorted L × IsSorted R
IsSorted-parts [] x R (a, s) = (tt, a, tt, s)
IsSorted-parts (y ∷ L) x R (a, s) =
    let (b, c, sl, sr) = IsSorted-parts L x R s in
    (((All-here (λ z. y ≤ z) L x R a).0, b), c, (All-front (λ z. y ≤ z) L (x ∷ R) a, sl), sr)

insert-before :
    (key x : ℕ) (L R : List ℕ) → ltb key x ≡ true → insert key (L ++ x ∷ R) ≡ insert key L ++ x ∷ R
unfolding insert
insert-before key x [] R h = rw h refl
insert-before key x (y ∷ L) R h = elim (Bool-cases (ltb key y)) [
  | inl e ↦ rw e refl
  | inr e ↦ rw e (ap (λ l. y ∷ l) (insert-before key x L R h))
]

insert-behind :
    (key x : ℕ) (L R : List ℕ)
    → All (λ y. y ≤ x) L
    → ltb key x ≡ false
    → insert key (L ++ x ∷ R) ≡ L ++ x ∷ insert key R
unfolding insert
insert-behind key x [] R a h = rw h refl
insert-behind key x (y ∷ L) R (p, a) h =
    let e : ltb key y ≡ false = ground arith in rw e (ap (λ l. y ∷ l) (insert-behind key x L R a h))

descend-insert :
    (key : ℕ) (t : Tree) (ctx : Context)
    → IsSorted (inorder t)
    → around (key ∷ []) (descend key t ctx) ≡ around (insert key (inorder t)) ctx
unfolding descend inorder insert
descend-insert key leaf ctx s = refl
descend-insert key (node c l k r) ctx s =
    let (a, b, sl, sr) = IsSorted-parts (inorder l) k (inorder r) s in
    elim (Bool-cases (ltb key k)) [
      | inl t ↦
          rw (t, descend)
            (descend-insert key l (left_of c k r ctx) sl
              ∙ around-left (insert key (inorder l)) c k r ctx
              ∙ ap (λ m. around m ctx) (sym (insert-before key k (inorder l) (inorder r) t)))
      | inr t ↦
          rw (t, descend)
            (descend-insert key r (right_of c l k ctx) sr
              ∙ around-right (insert key (inorder r)) c l k ctx
              ∙ ap (λ m. around m ctx) (sym (insert-behind key k (inorder l) (inorder r) a t)))
    ]

rb_add-inorder :
    (t : Tree) (key : ℕ) → IsSorted (inorder t) → Keeps (rb_add t key) (insert key (inorder t))
unfolding rb_add inorder around before after
rb_add-inorder t key s =
    keep _ (rb_add_fixup-inorder leaf key leaf (descend key t top))
      (descend-insert key t top s ∙ append-nil (insert key (inorder t)))

All-insert : (P : ℕ → Type 0) (key : ℕ) (xs : List ℕ) → P key → All P xs → All P (insert key xs)
unfolding insert
All-insert P key [] p a = (p, tt)
All-insert P key (x ∷ xs) p (q, a) = elim (Bool-cases (ltb key x)) [
  | inl e ↦ rw e (p, (q, a))
  | inr e ↦ rw e (q, All-insert P key xs p a)
]

pub All-le : (x y : ℕ) (xs : List ℕ) → x ≤ y → All (λ z. y ≤ z) xs → All (λ z. x ≤ z) xs
All-le x y [] h a = tt
All-le x y (z ∷ xs) h (p, a) = (omega arith, All-le x y xs h a)

pub insert-IsSorted : (key : ℕ) (xs : List ℕ) → IsSorted xs → IsSorted (insert key xs)
unfolding insert
insert-IsSorted key [] s = (tt, tt)
insert-IsSorted key (x ∷ xs) (a, s) = elim (Bool-cases (ltb key x)) [
  | inl e ↦ let h : key ≤ x = ground arith in rw e ((h, All-le key x xs h a), (a, s))
  | inr e ↦ rw e (All-insert (λ z. x ≤ z) key xs (ground arith) a, insert-IsSorted key xs s)
]

pub added :
    (t t' : Tree) (key : ℕ)
    → IsSorted (inorder t)
    → rb_add t key ≡ some t'
    → inorder t' ≡ insert key (inorder t)
added t t' key s e = rw e at (rb_add-inorder t key s)
