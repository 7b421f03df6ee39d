-- ===== src/Rbtree.antt =====
-- src/lib/rbtree.c and src/lib/rbtree.h: red-black trees of the nodes that a structure embeds.
-- The nodes below a node are a tree; its parent pointers up to the root are a context. A node is its
-- key, the number by which `cmp` orders it.
pub mod Shape
pub mod Order
pub mod Add
pub mod Search
pub mod Walk
pub mod Remove
mod Tests
use foreign_linux.Base.{ℕ, Bool, true, false, Option, none, some, ltb, if◌then◌else◌}

pub data Color : Type 0 where
  red black : Color

pub data Tree : Type 0 where
  leaf : Tree
  node : Color → Tree → ℕ → Tree → Tree

-- The parent of a node: it is its left or its right child, with the sibling, and the parent's parent.
pub data Context : Type 0 where
  top : Context
  left_of : Color → ℕ → (sibling : Tree) → Context → Context
  right_of : Color → (sibling : Tree) → ℕ → Context → Context

-- `NULL` counts as black.
abbrev pub rb_is_black : Tree → Bool
rb_is_black leaf = true
rb_is_black (node red l k r) = false
rb_is_black (node black l k r) = true

abbrev pub rb_set_color : Color → Tree → Tree
rb_set_color c leaf = leaf
rb_set_color c (node d l k r) = node c l k r

-- The whole tree, from a node on up.
pub plug : Tree → Context → Tree
plug t top = t
plug t (left_of c k s ctx) = plug (node c t k s) ctx
plug t (right_of c s k ctx) = plug (node c s k t) ctx

-- `p`, whose right child comes up, and `p`, whose left child comes up.
abbrev pub rb_left_rotate : Tree → Tree
rb_left_rotate (node c x p (node d y n z)) = node d (node c x p y) n z
rb_left_rotate t = t

abbrev pub rb_right_rotate : Tree → Tree
rb_right_rotate (node c (node d x n y) p z) = node d x n (node c y p z)
rb_right_rotate t = t

-- `rb_set_color(p, RB_BLACK)` and red for `g`, which is then its right or its left child.
abbrev pub paint_right : Tree → Tree
paint_right (node c l k r) = node black l k (rb_set_color red r)
paint_right leaf = leaf

abbrev pub paint_left : Tree → Tree
paint_left (node c l k r) = node black (rb_set_color red l) k r
paint_left leaf = leaf

-- `n` is red, with the children `l` and `r`. Where `p` is red and has no parent, `g` is `NULL`.
pub rb_add_fixup : (l : Tree) (n : ℕ) (r : Tree) → Context → Option Tree
unfolding plug
rb_add_fixup l n r top = some (node black l n r)
rb_add_fixup l n r (left_of black p s ctx) = some (plug (node red l n r) (left_of black p s ctx))
rb_add_fixup l n r (right_of black s p ctx) = some (plug (node red l n r) (right_of black s p ctx))
rb_add_fixup l n r (left_of red p s top) = none
rb_add_fixup l n r (right_of red s p top) = none
rb_add_fixup l n r (left_of red p s (left_of c g u ctx)) = elim (rb_is_black u) [
  | false ↦ rb_add_fixup (node black (node red l n r) p s) g (rb_set_color black u) ctx
  | true ↦
      some (plug (paint_right (rb_right_rotate (node c (node red (node red l n r) p s) g u))) ctx)
]
rb_add_fixup l n r (right_of red s p (left_of c g u ctx)) = elim (rb_is_black u) [
  | false ↦ rb_add_fixup (node black s p (node red l n r)) g (rb_set_color black u) ctx
  | true ↦ some (
      plug
        (paint_right
          (rb_right_rotate (node c (rb_left_rotate (node red s p (node red l n r))) g u)))
        ctx)
]
rb_add_fixup l n r (right_of red s p (right_of c u g ctx)) = elim (rb_is_black u) [
  | false ↦ rb_add_fixup (rb_set_color black u) g (node black s p (node red l n r)) ctx
  | true ↦
      some (plug (paint_left (rb_left_rotate (node c u g (node red s p (node red l n r))))) ctx)
]
rb_add_fixup l n r (left_of red p s (right_of c u g ctx)) = elim (rb_is_black u) [
  | false ↦ rb_add_fixup (rb_set_color black u) g (node black (node red l n r) p s) ctx
  | true ↦ some (
      plug
        (paint_left (rb_left_rotate (node c u g (rb_right_rotate (node red (node red l n r) p s)))))
        ctx)
]

-- The loop of `rb_add`: the place of a new node.
pub descend : (key : ℕ) → Tree → Context → Context
descend key leaf ctx = ctx
descend key (node c l k r) ctx =
    let left = descend key l (left_of c k r ctx) in
    let right = descend key r (right_of c l k ctx) in if ltb key k then left else right

pub rb_add : Tree → (key : ℕ) → Option Tree
unfolding rb_add_fixup descend
rb_add t key = rb_add_fixup leaf key leaf (descend key t top)

pub rb_find : Tree → (value : ℕ) → Option ℕ
rb_find leaf value = none
rb_find (node c l k r) value =
    let left = rb_find l value in
    let right = rb_find r value in
    if ltb value k then left else if ltb k value then right else some k

pub lower_bound_loop : Tree → (value : ℕ) → (candidate : Option ℕ) → Option ℕ
lower_bound_loop leaf value candidate = candidate
lower_bound_loop (node c l k r) value candidate =
    let left = lower_bound_loop l value (some k) in
    let right = lower_bound_loop r value candidate in
    if ltb value k then left else if ltb k value then right else some k

pub rb_lower_bound : Tree → (value : ℕ) → Option ℕ
unfolding lower_bound_loop
rb_lower_bound t value = lower_bound_loop t value none

pub upper_bound_loop : Tree → (value : ℕ) → (candidate : Option ℕ) → Option ℕ
upper_bound_loop leaf value candidate = candidate
upper_bound_loop (node c l k r) value candidate =
    let left = upper_bound_loop l value candidate in
    let right = upper_bound_loop r value (some k) in
    if ltb value k then left else if ltb k value then right else some k

pub rb_upper_bound : Tree → (value : ℕ) → Option ℕ
unfolding upper_bound_loop
rb_upper_bound t value = upper_bound_loop t value none

pub first_loop : Tree → (current : ℕ) → ℕ
first_loop leaf current = current
first_loop (node c l k r) current = first_loop l k

pub rb_first : Tree → Option ℕ
unfolding first_loop
rb_first leaf = none
rb_first (node c l k r) = some (first_loop l k)

pub last_loop : Tree → (current : ℕ) → ℕ
last_loop leaf current = current
last_loop (node c l k r) current = last_loop r k

pub rb_last : Tree → Option ℕ
unfolding last_loop
rb_last leaf = none
rb_last (node c l k r) = some (last_loop r k)

-- The walk up the parents while the node is a right child, or a left one.
pub next_up : Context → Option ℕ
next_up top = none
next_up (left_of c k s ctx) = some k
next_up (right_of c s k ctx) = next_up ctx

pub prev_up : Context → Option ℕ
prev_up top = none
prev_up (right_of c s k ctx) = some k
prev_up (left_of c k s ctx) = prev_up ctx

-- Of the node with the children `l` and `r` and the parents `ctx`.
pub rb_next : (l r : Tree) → Context → Option ℕ
unfolding next_up first_loop
rb_next l leaf ctx = next_up ctx
rb_next l (node c a k b) ctx = some (first_loop a k)

pub rb_prev : (l r : Tree) → Context → Option ℕ
unfolding prev_up last_loop
rb_prev leaf r ctx = prev_up ctx
rb_prev (node c a k b) r ctx = some (last_loop b k)
