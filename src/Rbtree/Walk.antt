-- ===== src/Rbtree/Walk.antt =====
-- src/lib/rbtree.c: the walks from a node to the next and the previous one, and to both ends.
use foreign_linux.Base.{
  ℕ, ◌≡◌, refl, sym, ap, ◌∙◌, Option, none, some, List, [], ◌∷◌, ◌++◌, append_assoc, append-nil,
}
use foreign_linux.Rbtree.{
  Tree, leaf, node, Context, top, left_of, right_of, first_loop, last_loop, rb_first, rb_last,
  next_up, prev_up, rb_next, rb_prev,
}
use foreign_linux.Rbtree.Order.{inorder, before, after}

abbrev pub head : List ℕ → Option ℕ
head [] = none
head (x ∷ xs) = some x

abbrev pub last : List ℕ → Option ℕ
last [] = none
last (x ∷ []) = some x
last (x ∷ y ∷ ys) = last (y ∷ ys)

last-append : (L R : List ℕ) (k : ℕ) → last (L ++ k ∷ R) ≡ last (k ∷ R)
last-append [] R k = refl
last-append (x ∷ []) R k = refl
last-append (x ∷ y ∷ L) R k = last-append (y ∷ L) R k

first_loop_lem : (l : Tree) (k : ℕ) (R : List ℕ) → head (inorder l ++ k ∷ R) ≡ some (first_loop l k)
unfolding first_loop inorder
first_loop_lem leaf k R = refl
first_loop_lem (node c a m b) k R =
    rw (append_assoc (inorder a) (m ∷ inorder b) (k ∷ R)) (first_loop_lem a m (inorder b ++ k ∷ R))

last_loop_lem : (r : Tree) (k : ℕ) (L : List ℕ) → last (L ++ k ∷ inorder r) ≡ some (last_loop r k)
unfolding last_loop inorder
last_loop_lem leaf k L = last-append L [] k
last_loop_lem (node c a m b) k L =
    rw (← append_assoc L (k ∷ inorder a) (m ∷ inorder b)) (last_loop_lem b m (L ++ k ∷ inorder a))

next_up_lem : (ctx : Context) → next_up ctx ≡ head (after ctx)
unfolding next_up after
next_up_lem top = refl
next_up_lem (left_of c k s ctx) = refl
next_up_lem (right_of c s k ctx) = next_up_lem ctx

prev_up_lem : (ctx : Context) → prev_up ctx ≡ last (before ctx)
unfolding prev_up before
prev_up_lem top = refl
prev_up_lem (left_of c k s ctx) = prev_up_lem ctx
prev_up_lem (right_of c s k ctx) = sym (last-append (before ctx ++ inorder s) [] k)

next_lem : (l r : Tree) (ctx : Context) → rb_next l r ctx ≡ head (inorder r ++ after ctx)
unfolding rb_next inorder
next_lem l leaf ctx = next_up_lem ctx
next_lem l (node c a k b) ctx = sym (
    rw (append_assoc (inorder a) (k ∷ inorder b) (after ctx))
      (first_loop_lem a k (inorder b ++ after ctx)))

prev_lem : (l r : Tree) (ctx : Context) → rb_prev l r ctx ≡ last (before ctx ++ inorder l)
unfolding rb_prev inorder
prev_lem leaf r ctx = prev_up_lem ctx ∙ sym (ap last (append-nil (before ctx)))
prev_lem (node c a k b) r ctx = sym (
    rw (← append_assoc (before ctx) (inorder a) (k ∷ inorder b))
      (last_loop_lem b k (before ctx ++ inorder a)))

first_lem : (t : Tree) → rb_first t ≡ head (inorder t)
unfolding rb_first inorder
first_lem leaf = refl
first_lem (node c l k r) = sym (first_loop_lem l k (inorder r))

last_lem : (t : Tree) → rb_last t ≡ last (inorder t)
unfolding rb_last inorder
last_lem leaf = refl
last_lem (node c l k r) = sym (last_loop_lem r k (inorder l))

-- At any node of any tree, rb_next is the key that follows the node's in the order of the tree, and
-- rb_prev the one that precedes it, or none at the ends; rb_first and rb_last of a tree are its
-- first and its last key.
pub walk_lem :
    (l r : Tree) (ctx : Context)
    → (rb_next l r ctx ≡ head (inorder r ++ after ctx))
      × (rb_prev l r ctx ≡ last (before ctx ++ inorder l))
      × (rb_first l ≡ head (inorder l))
      × (rb_last l ≡ last (inorder l))
walk_lem l r ctx = (next_lem l r ctx, prev_lem l r ctx, first_lem l, last_lem l)
