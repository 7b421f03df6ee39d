-- ===== src/Rbtree/Tests.antt =====
-- src/lib/rbtree.c on a tree of the keys 2, 4 and 6.
use foreign_linux.Base.{◌≡◌, refl, none, some, ◌∷◌, ◌++◌, arith, if◌then◌else◌}
use foreign_linux.Rbtree.{
  Tree, leaf, node, red, black, Context, top, left_of, plug, rb_add, rb_find, rb_lower_bound,
  rb_upper_bound, rb_next, rb_prev, rb_first, rb_last,
}
use foreign_linux.Rbtree.Shape.{IsRedBlack}
use foreign_linux.Rbtree.Order.{IsSorted, inorder, insert, before, after}
use foreign_linux.Rbtree.Add.{rb_add_lem}
use foreign_linux.Rbtree.Search.{member, first_from, last_upto, rb_find_lem, rb_bounds_lem}
use foreign_linux.Rbtree.Walk.{head, last, walk_lem}
use foreign_linux.Rbtree.Remove.{rb_remove}
use foreign_linux.Rbtree.Remove.Keys.{rb_remove_lem}

abbrev two_four_six : Tree
two_four_six = node black (node red leaf 2 leaf) 4 (node red leaf 6 leaf)

two_four_six-IsRedBlack : IsRedBlack two_four_six
two_four_six-IsRedBlack =
    (refl, (1, (omega arith, (refl, refl, refl, refl), (refl, refl, refl, refl))))

two_four_six-IsSorted : IsSorted (inorder two_four_six)
unfolding inorder
two_four_six-IsSorted = ((omega arith, (omega arith, tt)), ((omega arith, tt), (tt, tt)))

rb_add_lem_example :
    (u : Tree) × (rb_add two_four_six 5 ≡ some u)
    × IsRedBlack u
    × (inorder u ≡ insert 5 (inorder two_four_six))
    × IsSorted (inorder u)
rb_add_lem_example = rb_add_lem two_four_six 5 two_four_six-IsRedBlack two_four_six-IsSorted

rb_find_lem_example :
    rb_find two_four_six 6 ≡ (if member 6 (inorder two_four_six) then some 6 else none)
rb_find_lem_example = rb_find_lem two_four_six 6 two_four_six-IsSorted

rb_bounds_lem_example :
    (rb_lower_bound two_four_six 5 ≡ first_from 5 (inorder two_four_six))
    × (rb_upper_bound two_four_six 5 ≡ last_upto 5 (inorder two_four_six))
rb_bounds_lem_example = rb_bounds_lem two_four_six 5 two_four_six-IsSorted

-- The key 2 of the tree, below 4.
abbrev below_four : Context
below_four = left_of black 4 (node red leaf 6 leaf) top

walk_lem_example :
    (rb_next leaf (node red leaf 3 leaf) below_four
      ≡ head (inorder (node red leaf 3 leaf) ++ after below_four))
    × (rb_prev leaf (node red leaf 3 leaf) below_four ≡ last (before below_four ++ inorder leaf))
    × (rb_first leaf ≡ head (inorder leaf))
    × (rb_last leaf ≡ last (inorder leaf))
walk_lem_example = walk_lem leaf (node red leaf 3 leaf) below_four

whole-IsRedBlack : IsRedBlack (plug two_four_six top)
unfolding plug
whole-IsRedBlack = two_four_six-IsRedBlack

rb_remove_lem_example :
    (t : Tree) × (rb_remove black (node red leaf 2 leaf) 4 (node red leaf 6 leaf) top ≡ some t)
    × IsRedBlack t
    × (inorder (plug two_four_six top)
        ≡ (before top ++ inorder (node red leaf 2 leaf))
          ++ 4 ∷ (inorder (node red leaf 6 leaf) ++ after top))
    × (inorder t
        ≡ (before top ++ inorder (node red leaf 2 leaf))
          ++ (inorder (node red leaf 6 leaf) ++ after top))
rb_remove_lem_example =
    rb_remove_lem black (node red leaf 2 leaf) 4 (node red leaf 6 leaf) top whole-IsRedBlack
