-- ===== src/Vfs/Paths/Leads.antt =====
-- src/syscall/vfs.c: where a path leads to, name by name, as a relation without buffers and fuel.
use foreign_linux.Base.{ℕ, suc, ◌≤◌, ◌≡◌, ◌≢◌, List, [], ◌∷◌, All}
use mathlib.Core.List.{reverse}
use foreign_linux.Vfs.Mounts.{slash}
use foreign_linux.Vfs.Paths.{
  dot, Errno, enoent, eloop, opened, failed, link, World, open_component, Resolved, resolved, errno,
  exhausted, or_slash,
}
use foreign_linux.Vfs.Paths.Names.{split, join, pop, IsProper}

-- A path from a directory, names below a directory, and names below a directory entry that is not
-- opened yet.
pub data Goal : Type 0 where
  from : (st : List (List ℕ)) (pathname : List ℕ) → Goal
  names entered : (st cs : List (List ℕ)) → Goal

pub data Outcome : Type 0 where
  at : (st : List (List ℕ)) (symlink_remain : ℕ) → Outcome
  error : Errno → Outcome

-- With at most `k` symbolic links. The last name is not opened.
pub data Leads (w : World) : Goal → ℕ → Outcome → Type 0 where
  empty : {st : List (List ℕ)} {k : ℕ} → Leads w (from st []) k (error enoent)
  absolute :
      {st : List (List ℕ)} {cs : List ℕ} {k : ℕ} {o : Outcome}
      → Leads w (names [] (split cs)) k o
      → Leads w (from st (slash ∷ cs)) k o
  relative :
      {st : List (List ℕ)} {c : ℕ} {cs : List ℕ} {k : ℕ} {o : Outcome}
      → c ≢ slash
      → Leads w (names st (split (c ∷ cs))) k o
      → Leads w (from st (c ∷ cs)) k o
  ends : {st : List (List ℕ)} {k : ℕ} → Leads w (names st []) k (at st k)
  empty_name :
      {st cs : List (List ℕ)} {k : ℕ} {o : Outcome}
      → Leads w (names st cs) k o
      → Leads w (names st ([] ∷ cs)) k o
  same :
      {st cs : List (List ℕ)} {k : ℕ} {o : Outcome}
      → Leads w (names st cs) k o
      → Leads w (names st ((dot ∷ []) ∷ cs)) k o
  up :
      {st cs : List (List ℕ)} {k : ℕ} {o : Outcome}
      → Leads w (names (pop st) cs) k o
      → Leads w (names st ((dot ∷ dot ∷ []) ∷ cs)) k o
  last :
      {st : List (List ℕ)} {name : List ℕ} {k : ℕ}
      → IsProper name
      → Leads w (names st (name ∷ [])) k (at (reverse name ∷ st) k)
  enter :
      {st : List (List ℕ)} {name : List ℕ} {cs : List (List ℕ)} {k : ℕ} {o : Outcome}
      → IsProper name
      → cs ≢ []
      → Leads w (entered (reverse name ∷ st) cs) k o
      → Leads w (names st (name ∷ cs)) k o
  directory :
      {st cs : List (List ℕ)} {k : ℕ} {o : Outcome}
      → open_component w (join st) ≡ opened
      → Leads w (names st cs) k o
      → Leads w (entered st cs) k o
  refused :
      {st cs : List (List ℕ)} {k : ℕ} {e : Errno}
      → open_component w (join st) ≡ failed e
      → Leads w (entered st cs) k (error e)
  too_many :
      {st cs : List (List ℕ)} {target : List ℕ}
      → open_component w (join st) ≡ link target
      → Leads w (entered st cs) 0 (error eloop)
  broken :
      {st cs : List (List ℕ)} {target : List ℕ} {k : ℕ} {e : Errno}
      → open_component w (join st) ≡ link target
      → Leads w (from (pop st) target) k (error e)
      → Leads w (entered st cs) (suc k) (error e)
  follow :
      {st cs : List (List ℕ)} {target : List ℕ} {k : ℕ} {to : List (List ℕ)} {j : ℕ} {o : Outcome}
      → open_component w (join st) ≡ link target
      → Leads w (from (pop st) target) k (at to j)
      → Leads w (entered to cs) j o
      → Leads w (entered st cs) (suc k) o

-- The result of a call is where the path leads to, written with proper names only.
abbrev pub Meets : World → Goal → ℕ → Resolved → Type 0
Meets w g k (resolved realpath j) =
    (st : List (List ℕ)) × (realpath ≡ or_slash (join st))
    × All IsProper st
    × (j ≤ k)
    × Leads w g k (at st j)
Meets w g k (errno e) = Leads w g k (error e)
Meets w g k exhausted = ⊥
