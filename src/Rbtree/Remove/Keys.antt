-- ===== src/Rbtree/Remove/Keys.antt =====
-- src/lib/rbtree.c: removing a node takes its key out of the order, and no other.
use foreign_linux.Base.{
  ℕ, ◌≡◌, refl, sym, ap, ◌∙◌, some, List, [], ◌∷◌, ◌++◌, append_assoc, append-nil, Bool-cases, inl,
  inr,
}
use foreign_linux.Rbtree.{
  Color, red, black, Tree, leaf, node, Context, top, left_of, right_of, rb_is_black, rb_set_color,
  plug, first_loop,
}
use foreign_linux.Rbtree.Order.{
  inorder, around, before, after, inorder-plug, inorder-color, Keeps, keep, around-left,
  around-right,
}
use foreign_linux.Rbtree.Shape.{IsRedBlack}
use foreign_linux.Rbtree.Remove.{
  settle_left, settle_right, both_black, rb_remove_fixup, unlink, first_place, rb_remove,
  paint_both,
}
use foreign_linux.Rbtree.Remove.Place.{rb_remove-IsRedBlack}

inorder-paint_both : (c : Color) (t : Tree) → inorder (paint_both c t) ≡ inorder t
unfolding inorder
inorder-paint_both c leaf = refl
inorder-paint_both c (node d l k r) = rw (inorder-color black l, inorder-color black r) refl

settle_left-inorder :
    (c : Color) (n : Tree) (p : ℕ) (d : Color) (x : Tree) (s : ℕ) (y : Tree)
    → inorder (settle_left c n p d x s y) ≡ inorder n ++ p ∷ (inorder x ++ s ∷ inorder y)
unfolding settle_left inorder
settle_left-inorder c n p d leaf s y = elim (Bool-cases (rb_is_black y)) [
  | inl t ↦ rw (t, settle_left) (simp (inorder-color, append_assoc) refl)
  | inr t ↦ rw (t, settle_left) (simp (inorder-color, append_assoc) refl)
]
settle_left-inorder c n p d (node f l m r) s y = elim (Bool-cases (rb_is_black y)) [
  | inl t ↦ rw (t, settle_left) (simp (inorder-color, append_assoc) refl)
  | inr t ↦ rw (t, settle_left) (simp (inorder-color, append_assoc) refl)
]

settle_right-inorder :
    (c : Color) (n : Tree) (p : ℕ) (d : Color) (y : Tree) (s : ℕ) (x : Tree)
    → inorder (settle_right c n p d y s x) ≡ (inorder y ++ s ∷ inorder x) ++ p ∷ inorder n
unfolding settle_right inorder
settle_right-inorder c n p d y s leaf = elim (Bool-cases (rb_is_black y)) [
  | inl t ↦ rw (t, settle_right) (simp (inorder-color, append_assoc) refl)
  | inr t ↦ rw (t, settle_right) (simp (inorder-color, append_assoc) refl)
]
settle_right-inorder c n p d y s (node f l m r) = elim (Bool-cases (rb_is_black y)) [
  | inl t ↦ rw (t, settle_right) (simp (inorder-color, append_assoc) refl)
  | inr t ↦ rw (t, settle_right) (simp (inorder-color, append_assoc) refl)
]

painted-inorder :
    (n : Tree) (ctx : Context) → inorder (plug (rb_set_color black n) ctx) ≡ around (inorder n) ctx
painted-inorder n ctx =
    inorder-plug (rb_set_color black n) ctx ∙ ap (λ m. around m ctx) (inorder-color black n)

rb_remove_fixup-inorder :
    (n : Tree) (ctx : Context) → Keeps (rb_remove_fixup n ctx) (around (inorder n) ctx)
unfolding rb_remove_fixup plug inorder around before after
rb_remove_fixup-inorder n top = inorder-color black n ∙ sym (append-nil (inorder n))
rb_remove_fixup-inorder n (left_of c p leaf ctx) = elim (Bool-cases (rb_is_black n)) [
  | inr b ↦ rw (b, rb_remove_fixup) (painted-inorder n (left_of c p leaf ctx))
  | inl b ↦ rw (b, rb_remove_fixup) tt
]
rb_remove_fixup-inorder n (left_of c p (node black x s y) ctx) = elim (Bool-cases (rb_is_black n)) [
  | inr b ↦ rw (b, rb_remove_fixup) (painted-inorder n (left_of c p (node black x s y) ctx))
  | inl b ↦ elim (Bool-cases (both_black x y)) [
    | inl t ↦
        rw (b, t, rb_remove_fixup)
          (keep _ (rb_remove_fixup-inorder (node c n p (node red x s y)) ctx)
            (simp append_assoc refl))
    | inr t ↦
        rw (b, t, rb_remove_fixup)
          (inorder-plug (settle_left c n p black x s y) ctx
            ∙ simp (settle_left-inorder c n p black x s y, append_assoc) refl)
  ]
]
rb_remove_fixup-inorder n (left_of c p (node red leaf s y) ctx) =
    elim (Bool-cases (rb_is_black n)) [
      | inr b ↦ rw (b, rb_remove_fixup) (painted-inorder n (left_of c p (node red leaf s y) ctx))
      | inl b ↦ rw (b, rb_remove_fixup) tt
    ]
rb_remove_fixup-inorder n (left_of c p (node red (node d a m e) s y) ctx) =
    elim (Bool-cases (rb_is_black n)) [
      | inr b ↦
          rw (b, rb_remove_fixup)
            (painted-inorder n (left_of c p (node red (node d a m e) s y) ctx))
      | inl b ↦ elim (Bool-cases (both_black a e)) [
        | inl t ↦
            rw (b, t, rb_remove_fixup)
              (inorder-plug (node black n p (node red a m e)) (left_of black s y ctx)
                ∙ simp append_assoc refl)
        | inr t ↦
            rw (b, t, rb_remove_fixup)
              (inorder-plug (settle_left red n p d a m e) (left_of black s y ctx)
                ∙ simp (settle_left-inorder red n p d a m e, append_assoc) refl)
      ]
    ]
rb_remove_fixup-inorder n (right_of c leaf p ctx) = elim (Bool-cases (rb_is_black n)) [
  | inr b ↦ rw (b, rb_remove_fixup) (painted-inorder n (right_of c leaf p ctx))
  | inl b ↦ rw (b, rb_remove_fixup) tt
]
rb_remove_fixup-inorder n (right_of c (node black y s x) p ctx) =
    elim (Bool-cases (rb_is_black n)) [
      | inr b ↦ rw (b, rb_remove_fixup) (painted-inorder n (right_of c (node black y s x) p ctx))
      | inl b ↦ elim (Bool-cases (both_black x y)) [
        | inl t ↦
            rw (b, t, rb_remove_fixup)
              (keep _ (rb_remove_fixup-inorder (node c (node red y s x) p n) ctx)
                (simp append_assoc refl))
        | inr t ↦
            rw (b, t, rb_remove_fixup)
              (inorder-plug (settle_right c n p black y s x) ctx
                ∙ simp (settle_right-inorder c n p black y s x, append_assoc) refl)
      ]
    ]
rb_remove_fixup-inorder n (right_of c (node red y s leaf) p ctx) =
    elim (Bool-cases (rb_is_black n)) [
      | inr b ↦ rw (b, rb_remove_fixup) (painted-inorder n (right_of c (node red y s leaf) p ctx))
      | inl b ↦ rw (b, rb_remove_fixup) tt
    ]
rb_remove_fixup-inorder n (right_of c (node red y s (node d a m e)) p ctx) =
    elim (Bool-cases (rb_is_black n)) [
      | inr b ↦
          rw (b, rb_remove_fixup)
            (painted-inorder n (right_of c (node red y s (node d a m e)) p ctx))
      | inl b ↦ elim (Bool-cases (both_black e a)) [
        | inl t ↦
            rw (b, t, rb_remove_fixup)
              (inorder-plug (node black (node red a m e) p n) (right_of black y s ctx)
                ∙ simp append_assoc refl)
        | inr t ↦
            rw (b, t, rb_remove_fixup)
              (inorder-plug (settle_right red n p d a m e) (right_of black y s ctx)
                ∙ simp (settle_right-inorder red n p d a m e, append_assoc) refl)
      ]
    ]

unlink-inorder :
    (c : Color) (n : Tree) (ctx : Context) → Keeps (unlink c n ctx) (around (inorder n) ctx)
unfolding unlink plug inorder around before after
unlink-inorder red n top = inorder-color black n ∙ sym (append-nil (inorder n))
unlink-inorder black n top = inorder-color black n ∙ sym (append-nil (inorder n))
unlink-inorder red n (left_of d p s ctx) = inorder-plug n (left_of d p s ctx)
unlink-inorder red n (right_of d s p ctx) = inorder-plug n (right_of d s p ctx)
unlink-inorder black n (left_of d p s ctx) = rb_remove_fixup-inorder n (left_of d p s ctx)
unlink-inorder black n (right_of d s p ctx) = rb_remove_fixup-inorder n (right_of d s p ctx)

-- The rest of a list without its head.
abbrev pub tail : List ℕ → List ℕ
tail [] = []
tail (x ∷ xs) = xs

tail-append :
    (l : Tree) (c : Color) (k : ℕ) (r : Tree) (R : List ℕ)
    → tail (inorder (node c l k r) ++ R) ≡ tail (inorder (node c l k r)) ++ R
unfolding inorder
tail-append leaf c k r R = refl
tail-append (node d a m b) c k r R =
    ap tail (append_assoc (inorder (node d a m b)) (k ∷ inorder r) R)
    ∙ tail-append a d m b (k ∷ inorder r ++ R)
    ∙ sym (append_assoc (tail (inorder (node d a m b))) (k ∷ inorder r) R)
    ∙ ap (λ l. l ++ R) (sym (tail-append a d m b (k ∷ inorder r)))

-- Giving up the first place below a node takes the first key away.
first_place-inorder :
    (c : Color) (l : Tree) (k : ℕ) (r : Tree) (ctx : Context)
    → let (f, n, place) = first_place c l k r ctx in
      Keeps (unlink f n place) (around (tail (inorder (node c l k r))) ctx)
unfolding first_place inorder
first_place-inorder c leaf k r ctx = unlink-inorder c r ctx
first_place-inorder c (node d a m e) k r ctx =
    keep _ (first_place-inorder d a m e (left_of c k r ctx)) (
      around-left (tail (inorder (node d a m e))) c k r ctx
      ∙ ap (λ l. around l ctx) (sym (tail-append a d m e (k ∷ inorder r))))

first_then_tail :
    (c : Color) (l : Tree) (k : ℕ) (r : Tree)
    → first_loop l k ∷ tail (inorder (node c l k r)) ≡ inorder (node c l k r)
unfolding first_loop inorder
first_then_tail c leaf k r = refl
first_then_tail c (node d a m b) k r =
    ap (λ t. first_loop a m ∷ t) (tail-append a d m b (k ∷ inorder r))
    ∙ ap (λ t. t ++ k ∷ inorder r) (first_then_tail d a m b)

rb_remove-inorder :
    (c : Color) (l : Tree) (k : ℕ) (r : Tree) (ctx : Context)
    → Keeps (rb_remove c l k r ctx) (around (inorder l ++ inorder r) ctx)
unfolding rb_remove inorder
rb_remove-inorder c leaf k r ctx = unlink-inorder c r ctx
rb_remove-inorder c (node d a m b) k leaf ctx =
    keep _ (unlink-inorder c (node d a m b) ctx)
      (ap (λ l. around l ctx) (sym (append-nil (inorder (node d a m b)))))
rb_remove-inorder c (node d a m b) k (node e x s y) ctx =
    keep _ (first_place-inorder e x s y (right_of c (node d a m b) (first_loop x s) ctx)) (
      around-right (tail (inorder (node e x s y))) c (node d a m b) (first_loop x s) ctx
      ∙ ap (λ t. around (inorder (node d a m b) ++ t) ctx) (first_then_tail e x s y))

-- Removing any node of a red-black tree ends in a red-black tree, whose keys in order are those of
-- the tree without the key of the node: those before the node, then those behind it.
pub rb_remove_lem :
    (c : Color) (l : Tree) (k : ℕ) (r : Tree) (ctx : Context)
    → IsRedBlack (plug (node c l k r) ctx)
    → (t : Tree) × (rb_remove c l k r ctx ≡ some t)
      × IsRedBlack t
      × (inorder (plug (node c l k r) ctx)
          ≡ (before ctx ++ inorder l) ++ k ∷ (inorder r ++ after ctx))
      × (inorder t ≡ (before ctx ++ inorder l) ++ (inorder r ++ after ctx))
unfolding around inorder
rb_remove_lem c l k r ctx w =
    let (t, e, b) = rb_remove-IsRedBlack c l k r ctx w in
    (
      t,
      e,
      b,
      inorder-plug (node c l k r) ctx ∙ simp append_assoc refl,
      (let h : Keeps (some t) (around (inorder l ++ inorder r) ctx) =
              rw e at (rb_remove-inorder c l k r ctx) in
            h)
          ∙ simp append_assoc refl,
    )
