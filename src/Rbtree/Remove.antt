-- ===== src/Rbtree/Remove.antt =====
-- src/lib/rbtree.c: rb_remove and its fixup.
pub mod Fixup
pub mod Place
pub mod Keys
use foreign_linux.Base.{ℕ, Bool, true, false, ◌&&◌, Option, none, some}
use foreign_linux.Rbtree.{
  Color, red, black, Tree, leaf, node, Context, top, left_of, right_of, rb_is_black, rb_set_color,
  plug, rb_left_rotate, rb_right_rotate, first_loop,
}

-- The last lines of case 4: `s` gets the color of `p`, both its children become black.
abbrev pub paint_both : Color → Tree → Tree
paint_both c leaf = leaf
paint_both c (node d l k r) = node c (rb_set_color black l) k (rb_set_color black r)

-- Cases 3 and 4 for a sibling `s` with the children `x` and `y` on the right of `n`.
pub settle_left : (c : Color) (n : Tree) (p : ℕ) (d : Color) (x : Tree) (s : ℕ) (y : Tree) → Tree
settle_left c n p d x s y = elim (rb_is_black y) [
  | true ↦ paint_both c (rb_left_rotate (node c n p (rb_right_rotate (node d x s y))))
  | false ↦ paint_both c (rb_left_rotate (node c n p (node d x s y)))
]

-- The mirrored cases, for a sibling on the left; here `y` is its left child.
pub settle_right : (c : Color) (n : Tree) (p : ℕ) (d : Color) (y : Tree) (s : ℕ) (x : Tree) → Tree
settle_right c n p d y s x = elim (rb_is_black y) [
  | true ↦ paint_both c (rb_right_rotate (node c (rb_left_rotate (node d y s x)) p n))
  | false ↦ paint_both c (rb_right_rotate (node c (node d y s x) p n))
]

abbrev pub both_black : Tree → Tree → Bool
both_black x y = rb_is_black x && rb_is_black y

-- `n` lacks one black node. `none` is a sibling that is `NULL`. Where the sibling is red (case 1), the
-- parent becomes red, and case 2 ends with it in the next round.
pub rb_remove_fixup : (n : Tree) → Context → Option Tree
unfolding plug settle_left settle_right
rb_remove_fixup n top = some (rb_set_color black n)
rb_remove_fixup n (left_of c p leaf ctx) = elim (rb_is_black n) [
  | false ↦ some (plug (rb_set_color black n) (left_of c p leaf ctx))
  | true ↦ none
]
rb_remove_fixup n (left_of c p (node black x s y) ctx) = elim (rb_is_black n) [
  | false ↦ some (plug (rb_set_color black n) (left_of c p (node black x s y) ctx))
  | true ↦ elim (both_black x y) [
    | true ↦ rb_remove_fixup (node c n p (node red x s y)) ctx
    | false ↦ some (plug (settle_left c n p black x s y) ctx)
  ]
]
rb_remove_fixup n (left_of c p (node red leaf s y) ctx) = elim (rb_is_black n) [
  | false ↦ some (plug (rb_set_color black n) (left_of c p (node red leaf s y) ctx))
  | true ↦ none
]
rb_remove_fixup n (left_of c p (node red (node d a m b) s y) ctx) = elim (rb_is_black n) [
  | false ↦ some (plug (rb_set_color black n) (left_of c p (node red (node d a m b) s y) ctx))
  | true ↦ elim (both_black a b) [
    | true ↦ some (plug (node black n p (node red a m b)) (left_of black s y ctx))
    | false ↦ some (plug (settle_left red n p d a m b) (left_of black s y ctx))
  ]
]
rb_remove_fixup n (right_of c leaf p ctx) = elim (rb_is_black n) [
  | false ↦ some (plug (rb_set_color black n) (right_of c leaf p ctx))
  | true ↦ none
]
rb_remove_fixup n (right_of c (node black y s x) p ctx) = elim (rb_is_black n) [
  | false ↦ some (plug (rb_set_color black n) (right_of c (node black y s x) p ctx))
  | true ↦ elim (both_black x y) [
    | true ↦ rb_remove_fixup (node c (node red y s x) p n) ctx
    | false ↦ some (plug (settle_right c n p black y s x) ctx)
  ]
]
rb_remove_fixup n (right_of c (node red y s leaf) p ctx) = elim (rb_is_black n) [
  | false ↦ some (plug (rb_set_color black n) (right_of c (node red y s leaf) p ctx))
  | true ↦ none
]
rb_remove_fixup n (right_of c (node red y s (node d a m b)) p ctx) = elim (rb_is_black n) [
  | false ↦ some (plug (rb_set_color black n) (right_of c (node red y s (node d a m b)) p ctx))
  | true ↦ elim (both_black b a) [
    | true ↦ some (plug (node black (node red a m b) p n) (right_of black y s ctx))
    | false ↦ some (plug (settle_right red n p d a m b) (right_of black y s ctx))
  ]
]

-- A node of the color `c` with the one child `n` leaves its place.
pub unlink : (c : Color) (n : Tree) → Context → Option Tree
unfolding rb_remove_fixup plug
unlink c n top = some (rb_set_color black n)
unlink red n (left_of d p s ctx) = some (plug n (left_of d p s ctx))
unlink red n (right_of d s p ctx) = some (plug n (right_of d s p ctx))
unlink black n (left_of d p s ctx) = rb_remove_fixup n (left_of d p s ctx)
unlink black n (right_of d s p ctx) = rb_remove_fixup n (right_of d s p ctx)

-- The place of the first node below one: its color, its right child and its parents.
pub first_place : (c : Color) (l : Tree) (k : ℕ) (r : Tree) → Context → Color × Tree × Context
first_place c leaf k r ctx = (c, r, ctx)
first_place c (node d a m b) k r ctx = first_place d a m b (left_of c k r ctx)

-- The node with the color `c`, the key `k` and the children `l` and `r`. With two children its
-- successor takes its place, and the place of the successor is given up.
pub rb_remove : (c : Color) (l : Tree) (k : ℕ) (r : Tree) → Context → Option Tree
unfolding unlink first_place first_loop
rb_remove c leaf k r ctx = unlink c r ctx
rb_remove c (node d a m b) k leaf ctx = unlink c (node d a m b) ctx
rb_remove c (node d a m b) k (node e x s y) ctx =
    let (f, n, place) = first_place e x s y (right_of c (node d a m b) (first_loop x s) ctx) in
    unlink f n place
