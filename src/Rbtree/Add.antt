-- ===== src/Rbtree/Add.antt =====
-- src/lib/rbtree.c: adding a node keeps a tree red-black.
use foreign_linux.Base.{
  ℕ, ◌+◌, ◌-◌, ◌≡◌, refl, true, false, ◌||◌, Option, some, arith, Bool-cases, inl, inr, ltb,
}
use foreign_linux.Rbtree.Order.{IsSorted, inorder, insert, insert-IsSorted, added}
use foreign_linux.Rbtree.{
  red, black, Tree, leaf, node, Context, top, left_of, right_of, rb_is_black, rb_set_color, plug,
  rb_add_fixup, descend, rb_add,
}
use foreign_linux.Rbtree.Shape.{
  Shaped, Surrounds, parent_is_black, IsRedBlack, plug-IsRedBlack, grown,
}

-- A red node painted black has one more black node on its paths.
painted :
    (n : ℕ) (u : Tree) → rb_is_black u ≡ false → Shaped n u → Shaped (n + 1) (rb_set_color black u)
painted n leaf e h = ground arith
painted n (node black l k r) e h = ground arith
painted n (node red l k r) e (b, c, h, i) = grown n l k r h i

black_again : (u : Tree) → rb_is_black u ≡ false → rb_is_black (rb_set_color black u) ≡ true
black_again leaf e = refl
black_again (node c l k r) e = refl

abbrev pub Builds : Option Tree → Type 0
Builds o = (t : Tree) × (o ≡ some t) × IsRedBlack t

-- A node that is black, with its height, in its place.
built :
    (n : ℕ) (ctx : Context) (l : Tree) (k : ℕ) (r : Tree)
    → Shaped (n + 1) (node black l k r)
    → Surrounds (n + 1) ctx
    → Builds (some (plug (node black l k r) ctx))
built n ctx l k r h s =
    (plug (node black l k r) ctx, refl, plug-IsRedBlack (n + 1) (node black l k r) ctx h refl s)

rb_add_fixup-IsRedBlack :
    (n : ℕ) (l : Tree) (k : ℕ) (r : Tree) (ctx : Context)
    → Shaped n l
    → Shaped n r
    → rb_is_black l ≡ true
    → rb_is_black r ≡ true
    → Surrounds n ctx
    → Builds (rb_add_fixup l k r ctx)
unfolding rb_add_fixup plug
rb_add_fixup-IsRedBlack n l k r top h i b c s =
    (node black l k r, refl, (refl, (n + 1, grown n l k r h i)))
rb_add_fixup-IsRedBlack n l k r (left_of black p x ctx) h i b c s = (
  plug (node red l k r) (left_of black p x ctx),
  refl,
  plug-IsRedBlack n (node red l k r) (left_of black p x ctx) (b, c, h, i) refl s,
)
rb_add_fixup-IsRedBlack n l k r (right_of black x p ctx) h i b c s = (
  plug (node red l k r) (right_of black x p ctx),
  refl,
  plug-IsRedBlack n (node red l k r) (right_of black x p ctx) (b, c, h, i) refl s,
)
rb_add_fixup-IsRedBlack n l k r (left_of red p x top) h i b c (e, f, y, s) = ground arith
rb_add_fixup-IsRedBlack n l k r (left_of red p x (left_of red g u ctx)) h i b c (e, f, y, s) =
    ground arith
rb_add_fixup-IsRedBlack n l k r (left_of red p x (left_of black g u ctx)) h i b c
      (e, f, y, (z, s)) =
    elim (Bool-cases (rb_is_black u)) [
      | inl t ↦
          rw (t, rb_add_fixup)
            (built n ctx _ _ _
              (grown n (node red l k r) p (node red x g u) (b, c, h, i) (e, t, y, z)) s)
      | inr t ↦
          rw (t, rb_add_fixup)
            (rb_add_fixup-IsRedBlack (n + 1) (node black (node red l k r) p x) g
              (rb_set_color black u) ctx (grown n (node red l k r) p x (b, c, h, i) y)
              (painted n u t z) refl (black_again u t) s)
    ]
rb_add_fixup-IsRedBlack n l k r (left_of red p x (right_of red u g ctx)) h i b c (e, f, y, s) =
    ground arith
rb_add_fixup-IsRedBlack n l k r (left_of red p x (right_of black u g ctx)) h i b c
      (e, f, y, (z, s)) =
    elim (Bool-cases (rb_is_black u)) [
      | inl t ↦
          rw (t, rb_add_fixup)
            (built n ctx _ _ _
              (grown n (node red u g l) k (node red r p x) (t, b, z, h) (c, e, i, y)) s)
      | inr t ↦
          rw (t, rb_add_fixup)
            (rb_add_fixup-IsRedBlack (n + 1) (rb_set_color black u) g
              (node black (node red l k r) p x) ctx (painted n u t z)
              (grown n (node red l k r) p x (b, c, h, i) y) (black_again u t) refl s)
    ]
rb_add_fixup-IsRedBlack n l k r (right_of red x p top) h i b c (e, f, y, s) = ground arith
rb_add_fixup-IsRedBlack n l k r (right_of red x p (left_of red g u ctx)) h i b c (e, f, y, s) =
    ground arith
rb_add_fixup-IsRedBlack n l k r (right_of red x p (left_of black g u ctx)) h i b c
      (e, f, y, (z, s)) =
    elim (Bool-cases (rb_is_black u)) [
      | inl t ↦
          rw (t, rb_add_fixup)
            (built n ctx _ _ _
              (grown n (node red x p l) k (node red r g u) (e, b, y, h) (c, t, i, z)) s)
      | inr t ↦
          rw (t, rb_add_fixup)
            (rb_add_fixup-IsRedBlack (n + 1) (node black x p (node red l k r)) g
              (rb_set_color black u) ctx (grown n x p (node red l k r) y (b, c, h, i))
              (painted n u t z) refl (black_again u t) s)
    ]
rb_add_fixup-IsRedBlack n l k r (right_of red x p (right_of red u g ctx)) h i b c (e, f, y, s) =
    ground arith
rb_add_fixup-IsRedBlack n l k r (right_of red x p (right_of black u g ctx)) h i b c
      (e, f, y, (z, s)) =
    elim (Bool-cases (rb_is_black u)) [
      | inl t ↦
          rw (t, rb_add_fixup)
            (built n ctx _ _ _
              (grown n (node red u g x) p (node red l k r) (t, e, z, y) (b, c, h, i)) s)
      | inr t ↦
          rw (t, rb_add_fixup)
            (rb_add_fixup-IsRedBlack (n + 1) (rb_set_color black u) g
              (node black x p (node red l k r)) ctx (painted n u t z)
              (grown n x p (node red l k r) y (b, c, h, i)) (black_again u t) refl s)
    ]

descend-Surrounds :
    (key n : ℕ) (t : Tree) (ctx : Context)
    → Shaped n t
    → (rb_is_black t || parent_is_black ctx) ≡ true
    → Surrounds n ctx
    → Surrounds 0 (descend key t ctx)
unfolding descend
descend-Surrounds key n leaf ctx h b s = rw (← h) s
descend-Surrounds key n (node red l k r) ctx (e, f, h, i) b s = elim (Bool-cases (ltb key k)) [
  | inl t ↦
      rw (t, descend)
        (descend-Surrounds key n l (left_of red k r ctx) h (ground arith) (f, b, i, s))
  | inr t ↦
      rw (t, descend)
        (descend-Surrounds key n r (right_of red l k ctx) i (ground arith) (e, b, h, s))
]
descend-Surrounds key n (node black l k r) ctx (p, h, i) b s =
    let m : n - 1 + 1 ≡ n = omega arith in
    elim (Bool-cases (ltb key k)) [
      | inl t ↦
          rw (t, descend)
            (descend-Surrounds key (n - 1) l (left_of black k r ctx) h (ground arith) (i, rw m s))
      | inr t ↦
          rw (t, descend)
            (descend-Surrounds key (n - 1) r (right_of black l k ctx) i (ground arith) (h, rw m s))
    ]

-- Adding a node to a red-black tree always ends in a red-black tree.
pub rb_add-IsRedBlack : (t : Tree) (key : ℕ) → IsRedBlack t → Builds (rb_add t key)
unfolding rb_add
rb_add-IsRedBlack t key (b, (n, h)) =
    rb_add_fixup-IsRedBlack 0 leaf key leaf (descend key t top) refl refl refl refl
      (descend-Surrounds key n t top h (ground arith) tt)

-- Adding a key to a red-black tree whose keys are sorted always ends in a red-black tree, whose keys
-- in order are the old ones with the new one inserted, behind those equal to it, and sorted.
pub rb_add_lem :
    (t : Tree) (key : ℕ)
    → IsRedBlack t
    → IsSorted (inorder t)
    → (u : Tree) × (rb_add t key ≡ some u)
      × IsRedBlack u
      × (inorder u ≡ insert key (inorder t))
      × IsSorted (inorder u)
rb_add_lem t key b s =
    let (u, e, w) = rb_add-IsRedBlack t key b in
    let o = added t u key s e in (u, e, w, o, rw o (insert-IsSorted key (inorder t) s))
