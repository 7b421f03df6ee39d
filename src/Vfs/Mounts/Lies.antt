-- ===== src/Vfs/Mounts/Lies.antt =====
-- src/syscall/vfs.c: what it is for a path to lie below a mount point, said without the loop.
use foreign_linux.Base.{
  ℕ, ◌≡◌, ◌≢◌, refl, sym, ◌∙◌, ◌||◌, Option, none, some, List, [], ◌∷◌, ◌++◌, append-nil, arith,
  ◌==◌, if◌then◌else◌, Bool-cases, Option-cases, inl, inr,
}
use foreign_linux.Vfs.Mounts.{Mount, strip_prefix, below, ends_component, skip_slash, slash}

-- The path is that of the mount point, or goes on behind it with a slash; below the root it may go on
-- at once. `sub` is the rest without the slash.
pub data Lies (root_id : ℕ) (m : Mount) (path : List ℕ) : (sub : List ℕ) → Type 0 where
  mountpoint : path ≡ m.mountpoint → Lies root_id m path []
  inside : {sub : List ℕ} → path ≡ m.mountpoint ++ slash ∷ sub → Lies root_id m path sub
  below_root :
      {c : ℕ} {cs : List ℕ}
      → m.id ≡ root_id
      → c ≢ slash
      → path ≡ m.mountpoint ++ c ∷ cs
      → Lies root_id m path (c ∷ cs)

pub strip_prefix-some : (p s r : List ℕ) → strip_prefix p s ≡ some r → s ≡ p ++ r
unfolding strip_prefix
strip_prefix-some [] s r e = ground arith
strip_prefix-some (a ∷ p) [] r e = ground arith
strip_prefix-some (a ∷ p) (b ∷ s) r e = ground (arith, strip_prefix-some p s r)

pub strip_prefix-append : (p r : List ℕ) → strip_prefix p (p ++ r) ≡ some r
unfolding strip_prefix
strip_prefix-append [] r = refl
strip_prefix-append (a ∷ p) r = ground (arith, strip_prefix-append p r)

-- What lies behind the mount point.
abbrev accept : (root_id : ℕ) → Mount → (rest : List ℕ) → Option (List ℕ)
accept root_id m rest =
    if m.id == root_id || ends_component rest then some (skip_slash rest) else none

below-append :
    (root_id : ℕ) (m : Mount) (rest : List ℕ)
    → below root_id m (m.mountpoint ++ rest) ≡ accept root_id m rest
unfolding below
below-append root_id m rest = rw (strip_prefix-append m.mountpoint rest, below) refl

accept-Lies :
    (root_id : ℕ) (m : Mount) (path rest sub : List ℕ)
    → path ≡ m.mountpoint ++ rest
    → accept root_id m rest ≡ some sub
    → Lies root_id m path sub
accept-Lies root_id m path [] sub p e =
    let f : [] ≡ sub = ground (arith, e) in rw (← f) (mountpoint (p ∙ append-nil m.mountpoint))
accept-Lies root_id m path (c ∷ cs) sub p e = elim (Bool-cases (c == slash)) [
  | inl g ↦
      let f : cs ≡ sub = ground (arith, e, g) in
      let h : c ≡ slash = ground (arith, g) in rw (← f) (inside (rw h at p))
  | inr g ↦
      let f : c ∷ cs ≡ sub = ground (arith, e, g) in
      let h : c ≢ slash = ground (arith, g) in
      let r : m.id ≡ root_id = ground (arith, e, g) in rw (← f) (below_root r h p)
]

pub below-Lies :
    (root_id : ℕ) (m : Mount) (path sub : List ℕ)
    → below root_id m path ≡ some sub
    → Lies root_id m path sub
unfolding below
below-Lies root_id m path sub e = elim (Option-cases (strip_prefix m.mountpoint path)) [
  | inl f ↦ absurd (let g : none ≡ some sub = rw (f, below) at e in ground arith)
  | inr (rest, f) ↦
      accept-Lies root_id m path rest sub (strip_prefix-some m.mountpoint path rest f)
        (rw (f, below) at e)
]

pub Lies-below :
    (root_id : ℕ) (m : Mount) (path sub : List ℕ)
    → Lies root_id m path sub
    → below root_id m path ≡ some sub
Lies-below root_id m path sub (mountpoint p) =
    rw (p ∙ sym (append-nil m.mountpoint)) (below-append root_id m [] ∙ ground arith)
Lies-below root_id m path sub (inside p) =
    rw p (below-append root_id m (slash ∷ sub) ∙ ground arith)
Lies-below root_id m path sub (below_root {c} {cs} r n p) =
    rw p (below-append root_id m (c ∷ cs) ∙ ground (arith, r, n))
