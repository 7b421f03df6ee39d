-- ===== src/Rbtree/Remove/Fixup.antt =====
-- src/lib/rbtree.c: removing a node keeps a tree red-black.
use foreign_linux.Base.{ℕ, ◌+◌, ◌-◌, ◌≡◌, ◌⊎◌, refl, true, false, some, arith, Bool-cases, inl, inr}
use foreign_linux.Rbtree.{
  Color, red, black, Tree, leaf, node, Context, top, left_of, right_of, rb_is_black, rb_set_color,
  plug,
}
use foreign_linux.Rbtree.Shape.{Shaped, Surrounds, parent_is_black, plug-IsRedBlack, grown}
use foreign_linux.Rbtree.Add.{Builds}
use foreign_linux.Rbtree.Remove.{settle_left, settle_right, both_black, rb_remove_fixup}

-- `n` is one black node short of `h + 1`, until it is painted black if it is red.
abbrev pub Short : ℕ → Tree → Type 0
Short h n =
    ((rb_is_black n ≡ true) × Shaped h n)
    ⊎ ((rb_is_black n ≡ false) × Shaped (h + 1) (rb_set_color black n))

-- What a place demands of a parent of the color `c` whose children have `h` black nodes.
abbrev pub Takes : ℕ → Color → Context → Type 0
Takes h red ctx = (parent_is_black ctx ≡ true) × Surrounds h ctx
Takes h black ctx = Surrounds (h + 1) ctx

pub set_black : (c : Color) (t : Tree) → rb_is_black (rb_set_color black t) ≡ true
set_black c leaf = refl
set_black c (node d l k r) = refl

repaint :
    (h : ℕ) (t : Tree) → rb_is_black t ≡ false → Shaped h t → Shaped (h + 1) (rb_set_color black t)
repaint h leaf b s = ground arith
repaint h (node black l k r) b s = ground arith
repaint h (node red l k r) b (e, f, x, y) = grown h l k r x y

pub short : (h : ℕ) (t : Tree) → Shaped h t → Short h t
short h t s = elim (Bool-cases (rb_is_black t)) [
  | inl b ↦ inl (b, s)
  | inr b ↦ inr (b, repaint h t b s)
]

pub crowned :
    (h : ℕ) (c : Color) (l : Tree) (k : ℕ) (r : Tree) (ctx : Context)
    → Shaped h l
    → Shaped h r
    → rb_is_black l ≡ true
    → rb_is_black r ≡ true
    → Takes h c ctx
    → Builds (some (plug (node c l k r) ctx))
crowned h red l k r ctx x y e f (p, s) =
    (plug (node red l k r) ctx, refl, plug-IsRedBlack h (node red l k r) ctx (e, f, x, y) p s)
crowned h black l k r ctx x y e f s = (
  plug (node black l k r) ctx,
  refl,
  plug-IsRedBlack (h + 1) (node black l k r) ctx (grown h l k r x y) refl s,
)

-- `n` is red, and becomes black.
ended :
    (h : ℕ) (n : Tree) (ctx : Context)
    → rb_is_black n ≡ false
    → Short h n
    → Surrounds (h + 1) ctx
    → Builds (some (plug (rb_set_color black n) ctx))
ended h n ctx b (inl (e, x)) s = ground arith
ended h n ctx b (inr (e, x)) s = (
  plug (rb_set_color black n) ctx,
  refl,
  plug-IsRedBlack (h + 1) (rb_set_color black n) ctx x (ground (arith, set_black red n)) s,
)

Short-black : (h : ℕ) (n : Tree) → rb_is_black n ≡ true → Short h n → Shaped h n
Short-black h n b (inl (e, x)) = x
Short-black h n b (inr (e, x)) = ground arith

minus-one : (h : ℕ) (t : Tree) → Shaped (h + 1 - 1) t → Shaped h t
minus-one h t s = let e : h + 1 - 1 ≡ h = omega arith in rw (← e) s

split_left :
    (h : ℕ) (c : Color) (p : ℕ) (s : Tree) (ctx : Context)
    → Surrounds (h + 1) (left_of c p s ctx)
    → Shaped (h + 1) s × Takes (h + 1) c ctx × ((rb_is_black s ≡ true) ⊎ (c ≡ black))
split_left h red p s ctx (e, f, x, y) = (x, (f, y), inl e)
split_left h black p s ctx (x, y) = (x, y, inr refl)

split_right :
    (h : ℕ) (c : Color) (s : Tree) (p : ℕ) (ctx : Context)
    → Surrounds (h + 1) (right_of c s p ctx)
    → Shaped (h + 1) s × Takes (h + 1) c ctx × ((rb_is_black s ≡ true) ⊎ (c ≡ black))
split_right h red s p ctx (e, f, x, y) = (x, (f, y), inl e)
split_right h black s p ctx (x, y) = (x, y, inr refl)

-- Where no sibling can give a black node the lack moves up.
risen :
    (h : ℕ) (c : Color) (l : Tree) (k : ℕ) (r : Tree) (ctx : Context)
    → Shaped h l
    → Shaped h r
    → Takes (h + 1) c ctx
    → (m : ℕ) × Short m (node c l k r) × Surrounds (m + 1) ctx
risen h red l k r ctx x y (p, s) = (h, inr (refl, grown h l k r x y), s)
risen h black l k r ctx x y s = (h + 1, inl (refl, grown h l k r x y), s)

module _ (h : ℕ) (c : Color) (n : Tree) (p : ℕ) (ctx : Context) (b : rb_is_black n ≡ true)
    (sn : Shaped h n) (k : Takes (h + 1) c ctx) where
  settle_left-IsRedBlack :
      (d : Color) (x : Tree) (s : ℕ) (y : Tree)
      → Shaped h x
      → Shaped h y
      → both_black x y ≡ false
      → Builds (some (plug (settle_left c n p d x s y) ctx))
  unfolding settle_left
  settle_left-IsRedBlack d leaf s y sx sy e = elim (Bool-cases (rb_is_black y)) [
    | inl t ↦ ground arith
    | inr t ↦
        rw (t, settle_left)
          (crowned (h + 1) c (node black n p leaf) s (rb_set_color black y) ctx
            (grown h n p leaf sn sx) (repaint h y t sy) refl (set_black c y) k)
  ]
  settle_left-IsRedBlack d (node black l m r) s y sx sy e = elim (Bool-cases (rb_is_black y)) [
    | inl t ↦ ground arith
    | inr t ↦
        rw (t, settle_left)
          (crowned (h + 1) c (node black n p (node black l m r)) s (rb_set_color black y) ctx
            (grown h n p (node black l m r) sn sx) (repaint h y t sy) refl (set_black c y) k)
  ]
  settle_left-IsRedBlack d (node red l m r) s y sx sy e = elim (Bool-cases (rb_is_black y)) [
    | inl t ↦
        rw (t, settle_left)
          (crowned (h + 1) c (node black n p l) m (node black r s y) ctx (grown h n p l sn sx.2)
            (grown h r s y sx.3 sy) refl refl k)
    | inr t ↦
        rw (t, settle_left)
          (crowned (h + 1) c (node black n p (node red l m r)) s (rb_set_color black y) ctx
            (grown h n p (node red l m r) sn sx) (repaint h y t sy) refl (set_black c y) k)
  ]

  settle_right-IsRedBlack :
      (d : Color) (y : Tree) (s : ℕ) (x : Tree)
      → Shaped h y
      → Shaped h x
      → both_black x y ≡ false
      → Builds (some (plug (settle_right c n p d y s x) ctx))
  unfolding settle_right
  settle_right-IsRedBlack d y s leaf sy sx e = elim (Bool-cases (rb_is_black y)) [
    | inl t ↦ ground arith
    | inr t ↦
        rw (t, settle_right)
          (crowned (h + 1) c (rb_set_color black y) s (node black leaf p n) ctx (repaint h y t sy)
            (grown h leaf p n sx sn) (set_black c y) refl k)
  ]
  settle_right-IsRedBlack d y s (node black l m r) sy sx e = elim (Bool-cases (rb_is_black y)) [
    | inl t ↦ ground arith
    | inr t ↦
        rw (t, settle_right)
          (crowned (h + 1) c (rb_set_color black y) s (node black (node black l m r) p n) ctx
            (repaint h y t sy) (grown h (node black l m r) p n sx sn) (set_black c y) refl k)
  ]
  settle_right-IsRedBlack d y s (node red l m r) sy sx e = elim (Bool-cases (rb_is_black y)) [
    | inl t ↦
        rw (t, settle_right)
          (crowned (h + 1) c (node black y s l) m (node black r p n) ctx (grown h y s l sy sx.2)
            (grown h r p n sx.3 sn) refl refl k)
    | inr t ↦
        rw (t, settle_right)
          (crowned (h + 1) c (rb_set_color black y) s (node black (node red l m r) p n) ctx
            (repaint h y t sy) (grown h (node red l m r) p n sx sn) (set_black c y) refl k)
  ]

kept_black :
    (h : ℕ) (n : Tree) → rb_is_black n ≡ true → Shaped h n → Shaped h (rb_set_color black n)
kept_black h leaf b s = s
kept_black h (node black l k r) b s = s
kept_black h (node red l k r) b s = ground arith

false-ne-true : ¬ (false ≡ true)
false-ne-true e = cc

only_black : (c : Color) → (false ≡ true) ⊎ (c ≡ black) → c ≡ black
only_black c (inl e) = cc
only_black c (inr e) = e

pub rb_remove_fixup-IsRedBlack :
    (h : ℕ) (n : Tree) (ctx : Context)
    → Short h n
    → Surrounds (h + 1) ctx
    → Builds (rb_remove_fixup n ctx)
unfolding rb_remove_fixup plug
rb_remove_fixup-IsRedBlack h n top (inl (b, x)) s =
    (rb_set_color black n, refl, (set_black red n, (h, kept_black h n b x)))
rb_remove_fixup-IsRedBlack h n top (inr (b, x)) s =
    (rb_set_color black n, refl, (set_black red n, (h + 1, x)))
rb_remove_fixup-IsRedBlack h n (left_of c p leaf ctx) d w = elim (Bool-cases (rb_is_black n)) [
  | inr b ↦ rw (b, rb_remove_fixup) (ended h n (left_of c p leaf ctx) b d w)
  | inl b ↦ let (x, y, z) = split_left h c p leaf ctx w in absurd (omega arith)
]
rb_remove_fixup-IsRedBlack h n (left_of c p (node black x s y) ctx) d w =
    elim (Bool-cases (rb_is_black n)) [
      | inr b ↦ rw (b, rb_remove_fixup) (ended h n (left_of c p (node black x s y) ctx) b d w)
      | inl b ↦
          let (sib, k, z) = split_left h c p (node black x s y) ctx w in
          let sn : Shaped h n = Short-black h n b d in
          elim (Bool-cases (both_black x y)) [
            | inl t ↦
                let ex : rb_is_black x ≡ true = ground arith in
                let ey : rb_is_black y ≡ true = ground arith in
                let (m, q, u) =
                  risen h c n p (node red x s y) ctx sn
                    (ex, ey, minus-one h x sib.1, minus-one h y sib.2) k in
                rw (b, t, rb_remove_fixup)
                  (rb_remove_fixup-IsRedBlack m (node c n p (node red x s y)) ctx q u)
            | inr t ↦
                rw (b, t, rb_remove_fixup)
                  (settle_left-IsRedBlack h c n p ctx b sn k black x s y (minus-one h x sib.1)
                    (minus-one h y sib.2) t)
          ]
    ]
rb_remove_fixup-IsRedBlack h n (left_of c p (node red leaf s y) ctx) d w =
    elim (Bool-cases (rb_is_black n)) [
      | inr b ↦ rw (b, rb_remove_fixup) (ended h n (left_of c p (node red leaf s y) ctx) b d w)
      | inl b ↦
          let (sib, k, z) = split_left h c p (node red leaf s y) ctx w in
          absurd (omega (arith, sib.2))
    ]
rb_remove_fixup-IsRedBlack h n (left_of c p (node red (node red a m e) s y) ctx) d w =
    elim (Bool-cases (rb_is_black n)) [
      | inr b ↦
          rw (b, rb_remove_fixup)
            (ended h n (left_of c p (node red (node red a m e) s y) ctx) b d w)
      | inl b ↦
          let (sib, k, z) = split_left h c p (node red (node red a m e) s y) ctx w in
          absurd (false-ne-true sib.0)
    ]
rb_remove_fixup-IsRedBlack h n (left_of c p (node red (node black a m e) s y) ctx) d w =
    elim (Bool-cases (rb_is_black n)) [
      | inr b ↦
          rw (b, rb_remove_fixup)
            (ended h n (left_of c p (node red (node black a m e) s y) ctx) b d w)
      | inl b ↦
          let (sib, k, z) = split_left h c p (node red (node black a m e) s y) ctx w in
          let sn : Shaped h n = Short-black h n b d in
          let cb : c ≡ black = only_black c z in
          let k' : Surrounds (h + 1 + 1) ctx = rw cb at k in
          let v : Surrounds (h + 1) (left_of black s y ctx) = (sib.3, k') in
          elim (Bool-cases (both_black a e)) [
            | inl t ↦
                let ea : rb_is_black a ≡ true = ground arith in
                let ee : rb_is_black e ≡ true = ground arith in
                rw (b, t, rb_remove_fixup)
                  (
                    plug (node black n p (node red a m e)) (left_of black s y ctx),
                    refl,
                    plug-IsRedBlack (h + 1) (node black n p (node red a m e))
                        (left_of black s y ctx)
                        (grown h n p (node red a m e) sn
                          (ea, ee, minus-one h a sib.2.1, minus-one h e sib.2.2))
                        refl v,
                  )
            | inr t ↦
                rw (b, t, rb_remove_fixup)
                  (settle_left-IsRedBlack h red n p (left_of black s y ctx) b sn (refl, v) black a m
                    e (minus-one h a sib.2.1) (minus-one h e sib.2.2) t)
          ]
    ]
rb_remove_fixup-IsRedBlack h n (right_of c leaf p ctx) d w = elim (Bool-cases (rb_is_black n)) [
  | inr b ↦ rw (b, rb_remove_fixup) (ended h n (right_of c leaf p ctx) b d w)
  | inl b ↦ let (x, y, z) = split_right h c leaf p ctx w in absurd (omega arith)
]
rb_remove_fixup-IsRedBlack h n (right_of c (node black y s x) p ctx) d w =
    elim (Bool-cases (rb_is_black n)) [
      | inr b ↦ rw (b, rb_remove_fixup) (ended h n (right_of c (node black y s x) p ctx) b d w)
      | inl b ↦
          let (sib, k, z) = split_right h c (node black y s x) p ctx w in
          let sn : Shaped h n = Short-black h n b d in
          elim (Bool-cases (both_black x y)) [
            | inl t ↦
                let ex : rb_is_black x ≡ true = ground arith in
                let ey : rb_is_black y ≡ true = ground arith in
                let (m, q, u) =
                  risen h c (node red y s x) p n ctx
                    (ey, ex, minus-one h y sib.1, minus-one h x sib.2) sn k in
                rw (b, t, rb_remove_fixup)
                  (rb_remove_fixup-IsRedBlack m (node c (node red y s x) p n) ctx q u)
            | inr t ↦
                rw (b, t, rb_remove_fixup)
                  (settle_right-IsRedBlack h c n p ctx b sn k black y s x (minus-one h y sib.1)
                    (minus-one h x sib.2) t)
          ]
    ]
rb_remove_fixup-IsRedBlack h n (right_of c (node red y s leaf) p ctx) d w =
    elim (Bool-cases (rb_is_black n)) [
      | inr b ↦ rw (b, rb_remove_fixup) (ended h n (right_of c (node red y s leaf) p ctx) b d w)
      | inl b ↦
          let (sib, k, z) = split_right h c (node red y s leaf) p ctx w in
          absurd (omega (arith, sib.3))
    ]
rb_remove_fixup-IsRedBlack h n (right_of c (node red y s (node red a m e)) p ctx) d w =
    elim (Bool-cases (rb_is_black n)) [
      | inr b ↦
          rw (b, rb_remove_fixup)
            (ended h n (right_of c (node red y s (node red a m e)) p ctx) b d w)
      | inl b ↦
          let (sib, k, z) = split_right h c (node red y s (node red a m e)) p ctx w in
          absurd (false-ne-true sib.1)
    ]
rb_remove_fixup-IsRedBlack h n (right_of c (node red y s (node black a m e)) p ctx) d w =
    elim (Bool-cases (rb_is_black n)) [
      | inr b ↦
          rw (b, rb_remove_fixup)
            (ended h n (right_of c (node red y s (node black a m e)) p ctx) b d w)
      | inl b ↦
          let (sib, k, z) = split_right h c (node red y s (node black a m e)) p ctx w in
          let sn : Shaped h n = Short-black h n b d in
          let cb : c ≡ black = only_black c z in
          let k' : Surrounds (h + 1 + 1) ctx = rw cb at k in
          let v : Surrounds (h + 1) (right_of black y s ctx) = (sib.2, k') in
          elim (Bool-cases (both_black e a)) [
            | inl t ↦
                let ea : rb_is_black a ≡ true = ground arith in
                let ee : rb_is_black e ≡ true = ground arith in
                rw (b, t, rb_remove_fixup)
                  (
                    plug (node black (node red a m e) p n) (right_of black y s ctx),
                    refl,
                    plug-IsRedBlack (h + 1) (node black (node red a m e) p n)
                        (right_of black y s ctx)
                        (grown h (node red a m e) p n
                          (ea, ee, minus-one h a sib.3.1, minus-one h e sib.3.2) sn)
                        refl v,
                  )
            | inr t ↦
                rw (b, t, rb_remove_fixup)
                  (settle_right-IsRedBlack h red n p (right_of black y s ctx) b sn (refl, v) black a
                    m e (minus-one h a sib.3.1) (minus-one h e sib.3.2) t)
          ]
    ]
