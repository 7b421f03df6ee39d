-- ===== src/Rbtree/Remove/Place.antt =====
-- src/lib/rbtree.c: removing any node keeps a tree red-black.
use foreign_linux.Base.{ℕ, ◌+◌, ◌-◌, ◌≡◌, refl, true, ◌||◌, arith}
use foreign_linux.Rbtree.{
  Color, red, black, Tree, leaf, node, Context, top, left_of, right_of, rb_is_black, plug,
  first_loop,
}
use foreign_linux.Rbtree.Shape.{Shaped, Surrounds, parent_is_black, IsRedBlack, plug-IsRedBlack}
use foreign_linux.Rbtree.Add.{Builds}
use foreign_linux.Rbtree.Remove.{rb_remove_fixup, unlink, first_place, rb_remove}
use foreign_linux.Rbtree.Remove.Fixup.{short, rb_remove_fixup-IsRedBlack}

-- The one child of a node whose other child is `NULL`.
pub unlink-IsRedBlack :
    (h : ℕ) (c : Color) (n : Tree) (ctx : Context)
    → Shaped h (node c leaf 0 n)
    → (rb_is_black (node c leaf 0 n) || parent_is_black ctx) ≡ true
    → Surrounds h ctx
    → Builds (unlink c n ctx)
unfolding unlink rb_remove_fixup plug
unlink-IsRedBlack h red n top x b s = ground arith
unlink-IsRedBlack h black n top (p, x, y) b s =
    rb_remove_fixup-IsRedBlack (h - 1) n top (short (h - 1) n y) tt
unlink-IsRedBlack h red n (left_of d p t ctx) (e, f, x, y) b s =
    (plug n (left_of d p t ctx), refl, plug-IsRedBlack h n (left_of d p t ctx) y (ground arith) s)
unlink-IsRedBlack h red n (right_of d t p ctx) (e, f, x, y) b s =
    (plug n (right_of d t p ctx), refl, plug-IsRedBlack h n (right_of d t p ctx) y (ground arith) s)
unlink-IsRedBlack h black n (left_of d p t ctx) (q, x, y) b s =
    let e : h - 1 + 1 ≡ h = omega arith in
    rb_remove_fixup-IsRedBlack (h - 1) n (left_of d p t ctx) (short (h - 1) n y) (rw e s)
unlink-IsRedBlack h black n (right_of d t p ctx) (q, x, y) b s =
    let e : h - 1 + 1 ≡ h = omega arith in
    rb_remove_fixup-IsRedBlack (h - 1) n (right_of d t p ctx) (short (h - 1) n y) (rw e s)

-- The left and the right child are alike for the shape.
mirrored :
    (h : ℕ) (c : Color) (l : Tree) (k k' : ℕ) (r : Tree)
    → Shaped h (node c l k r)
    → Shaped h (node c r k' l)
mirrored h red l k k' r (e, f, x, y) = (f, e, y, x)
mirrored h black l k k' r (p, x, y) = (p, y, x)

rekeyed :
    (h : ℕ) (c : Color) (l : Tree) (k k' : ℕ) (r : Tree)
    → Shaped h (node c l k r)
    → Shaped h (node c l k' r)
rekeyed h red l k k' r s = s
rekeyed h black l k k' r s = s

color_of_node :
    (c : Color) (l l' : Tree) (k k' : ℕ) (r r' : Tree)
    → rb_is_black (node c l k r) ≡ rb_is_black (node c l' k' r')
color_of_node red l l' k k' r r' = refl
color_of_node black l l' k k' r r' = refl

down_left :
    (h : ℕ) (c : Color) (l : Tree) (k : ℕ) (r : Tree) (ctx : Context)
    → Shaped h (node c l k r)
    → (rb_is_black (node c l k r) || parent_is_black ctx) ≡ true
    → Surrounds h ctx
    → (m : ℕ) × Shaped m l
      × ((rb_is_black l || parent_is_black (left_of c k r ctx)) ≡ true)
      × Surrounds m (left_of c k r ctx)
down_left h red l k r ctx (e, f, x, y) b s = (h, x, ground arith, (f, b, y, s))
down_left h black l k r ctx (p, x, y) b s =
    let e : h - 1 + 1 ≡ h = omega arith in (h - 1, x, ground arith, (y, rw e s))

pub down_right :
    (h : ℕ) (c : Color) (l : Tree) (k k' : ℕ) (r : Tree) (ctx : Context)
    → Shaped h (node c l k r)
    → (rb_is_black (node c l k r) || parent_is_black ctx) ≡ true
    → Surrounds h ctx
    → (m : ℕ) × Shaped m r
      × ((rb_is_black r || parent_is_black (right_of c l k' ctx)) ≡ true)
      × Surrounds m (right_of c l k' ctx)
down_right h red l k k' r ctx (e, f, x, y) b s = (h, y, ground arith, (e, b, x, s))
down_right h black l k k' r ctx (p, x, y) b s =
    let e : h - 1 + 1 ≡ h = omega arith in (h - 1, y, ground arith, (x, rw e s))

first_place-IsRedBlack :
    (h : ℕ) (c : Color) (l : Tree) (k : ℕ) (r : Tree) (ctx : Context)
    → Shaped h (node c l k r)
    → (rb_is_black (node c l k r) || parent_is_black ctx) ≡ true
    → Surrounds h ctx
    → let (f, n, place) = first_place c l k r ctx in Builds (unlink f n place)
unfolding first_place
first_place-IsRedBlack h c leaf k r ctx x b s =
    unlink-IsRedBlack h c r ctx (rekeyed h c leaf k 0 r x)
      (rw (color_of_node c leaf leaf 0 k r r) b) s
first_place-IsRedBlack h c (node d a m e) k r ctx x b s =
    let (i, y, b', s') = down_left h c (node d a m e) k r ctx x b s in
    first_place-IsRedBlack i d a m e (left_of c k r ctx) y b' s'

at_place :
    (h : ℕ) (c : Color) (l : Tree) (k : ℕ) (r : Tree) (ctx : Context)
    → Shaped h (node c l k r)
    → (rb_is_black (node c l k r) || parent_is_black ctx) ≡ true
    → Surrounds h ctx
    → Builds (rb_remove c l k r ctx)
unfolding rb_remove
at_place h c leaf k r ctx x b s =
    unlink-IsRedBlack h c r ctx (rekeyed h c leaf k 0 r x)
      (rw (color_of_node c leaf leaf 0 k r r) b) s
at_place h c (node d a m e) k leaf ctx x b s =
    unlink-IsRedBlack h c (node d a m e) ctx (mirrored h c (node d a m e) k 0 leaf x)
      (rw (color_of_node c leaf (node d a m e) 0 k (node d a m e) leaf) b) s
at_place h c (node d a m e) k (node f g i j) ctx x b s =
    let (q, y, b', s') =
      down_right h c (node d a m e) k (first_loop g i) (node f g i j) ctx x b s in
    first_place-IsRedBlack q f g i j (right_of c (node d a m e) (first_loop g i) ctx) y b' s'

-- The parts of a whole tree around a node of it.
unplug :
    (t : Tree) (ctx : Context)
    → IsRedBlack (plug t ctx)
    → (n : ℕ) × Shaped n t × ((rb_is_black t || parent_is_black ctx) ≡ true) × Surrounds n ctx
unfolding plug
unplug t top (b, (n, s)) = (n, s, ground arith, tt)
unplug t (left_of c k x ctx) w =
    let (n, s, b, u) = unplug (node c t k x) ctx w in down_left n c t k x ctx s b u
unplug t (right_of c x k ctx) w =
    let (n, s, b, u) = unplug (node c x k t) ctx w in down_right n c x k k t ctx s b u

-- Removing any node of a red-black tree always ends in a red-black tree.
pub rb_remove-IsRedBlack :
    (c : Color) (l : Tree) (k : ℕ) (r : Tree) (ctx : Context)
    → IsRedBlack (plug (node c l k r) ctx)
    → Builds (rb_remove c l k r ctx)
rb_remove-IsRedBlack c l k r ctx w =
    let (n, s, b, u) = unplug (node c l k r) ctx w in at_place n c l k r ctx s b u
