-- ===== src/Rbtree/Shape.antt =====
-- src/lib/rbtree.c: the shape of a red-black tree, and of the rest of one around a node.
use foreign_linux.Base.{ℕ, ◌+◌, ◌-◌, ◌<◌, ◌≡◌, refl, Bool, true, false, ◌||◌, arith}
use foreign_linux.Rbtree.{
  red, black, Tree, leaf, node, Context, top, left_of, right_of, rb_is_black, plug,
}

-- No red node has a red child, and each path down passes `n` black nodes.
abbrev pub Shaped : ℕ → Tree → Type 0
Shaped n leaf = ◌≡◌ {A = ℕ} n 0
Shaped n (node red l k r) =
    (rb_is_black l ≡ true) × (rb_is_black r ≡ true) × Shaped n l × Shaped n r
Shaped n (node black l k r) = (0 < n) × Shaped (n - 1) l × Shaped (n - 1) r

abbrev pub parent_is_black : Context → Bool
parent_is_black top = false
parent_is_black (left_of red k s ctx) = false
parent_is_black (right_of red s k ctx) = false
parent_is_black (left_of black k s ctx) = true
parent_is_black (right_of black s k ctx) = true

-- The same for the rest of a tree, in which a tree with `n` black nodes on each path is missing.
abbrev pub Surrounds : ℕ → Context → Type 0
Surrounds n top = Unit {0}
Surrounds n (left_of red k s ctx) =
    (rb_is_black s ≡ true) × (parent_is_black ctx ≡ true) × Shaped n s × Surrounds n ctx
Surrounds n (right_of red s k ctx) =
    (rb_is_black s ≡ true) × (parent_is_black ctx ≡ true) × Shaped n s × Surrounds n ctx
Surrounds n (left_of black k s ctx) = Shaped n s × Surrounds (n + 1) ctx
Surrounds n (right_of black s k ctx) = Shaped n s × Surrounds (n + 1) ctx

-- A whole tree: its root is black, too.
abbrev pub IsRedBlack : Tree → Type 0
IsRedBlack t = (rb_is_black t ≡ true) × ((n : ℕ) × Shaped n t)

pub grown :
    (n : ℕ) (l : Tree) (k : ℕ) (r : Tree)
    → Shaped n l
    → Shaped n r
    → Shaped (n + 1) (node black l k r)
grown n l k r h i = let e : n + 1 - 1 ≡ n = omega arith in (omega arith, rw e h, rw e i)

pub plug-IsRedBlack :
    (n : ℕ) (t : Tree) (ctx : Context)
    → Shaped n t
    → (rb_is_black t || parent_is_black ctx) ≡ true
    → Surrounds n ctx
    → IsRedBlack (plug t ctx)
unfolding plug
plug-IsRedBlack n t top h b s = (ground arith, (n, h))
plug-IsRedBlack n t (left_of red k x ctx) h b (e, p, y, s) =
    plug-IsRedBlack n (node red t k x) ctx (ground arith, e, h, y) p s
plug-IsRedBlack n t (right_of red x k ctx) h b (e, p, y, s) =
    plug-IsRedBlack n (node red x k t) ctx (e, ground arith, y, h) p s
plug-IsRedBlack n t (left_of black k x ctx) h b (y, s) =
    plug-IsRedBlack (n + 1) (node black t k x) ctx (grown n t k x h y) refl s
plug-IsRedBlack n t (right_of black x k ctx) h b (y, s) =
    plug-IsRedBlack (n + 1) (node black x k t) ctx (grown n x k t y h) refl s
