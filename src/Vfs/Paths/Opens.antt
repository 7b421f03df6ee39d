-- ===== src/Vfs/Paths/Opens.antt =====
-- src/syscall/vfs.c: opening a path: its last component, and the symbolic links that it may be.
use foreign_linux.Base.{
  ℕ, zero, suc, ◌<◌, ◌≡◌, refl, some, List, [], ◌∷◌, arith, ◌==◌, inl, inr, All, Bool-cases,
}
use foreign_linux.Vfs.Mounts.{Mount, slash}
use foreign_linux.Vfs.Paths.{
  Errno, eloop, Opened, opened, failed, link, World, Resolved, resolved, or_slash, remove_basename,
  path_max, max_symlink_level, resolve_path, resolve_pathat, OpenResult, file, open_last,
  openat_loop, vfs_openat,
}
use foreign_linux.Vfs.Paths.Names.{join, pop, IsProper, remove_basename-join}
use foreign_linux.Vfs.Paths.Leads.{Goal, from, Outcome, at, error, Leads, Meets}
use foreign_linux.Vfs.Paths.Resolves.{IsShort, All-pop, Opened-cases, resolve_path_lem}

-- From the place that a path leads to, to the open file or an error. No outcome is a lack of fuel.
pub data Opens (w : World) (opener : ℕ → Mount → List ℕ → Opened)
    : Outcome → OpenResult → Type 0 where
  not_found : {e : Errno} → Opens w opener (error e) (OpenResult.errno e)
  opens :
      {st : List (List ℕ)} {k : ℕ}
      → open_last w opener (or_slash (join st)) ≡ opened
      → Opens w opener (at st k) (file (or_slash (join st)))
  refused :
      {st : List (List ℕ)} {k : ℕ} {e : Errno}
      → open_last w opener (or_slash (join st)) ≡ failed e
      → Opens w opener (at st k) (OpenResult.errno e)
  too_many :
      {st : List (List ℕ)} {target : List ℕ}
      → open_last w opener (or_slash (join st)) ≡ link target
      → Opens w opener (at st 0) (OpenResult.errno eloop)
  follow :
      {st : List (List ℕ)} {k : ℕ} {target : List ℕ} {o : Outcome} {r : OpenResult}
      → open_last w opener (or_slash (join st)) ≡ link target
      → Leads w (from (pop st) target) k o
      → Opens w opener o r
      → Opens w opener (at st (suc k)) r

remove_basename-or_slash :
    (st : List (List ℕ)) → All IsProper st → remove_basename (or_slash (join st)) ≡ join (pop st)
unfolding join remove_basename
remove_basename-or_slash [] a = refl
remove_basename-or_slash ([] ∷ st) (p, a) = absurd (p.nonempty refl)
remove_basename-or_slash ((c ∷ name) ∷ st) (p, a) = remove_basename-join ((c ∷ name) ∷ st) (p, a)

-- Where a path leads to, and what the rest of the call makes of it.
abbrev pub Ends : World → (ℕ → Mount → List ℕ → Opened) → Goal → ℕ → OpenResult → Type 0
Ends w opener g k r = (o : Outcome) × Leads w g k o × Opens w opener o r

module _ (w : World) (opener : ℕ → Mount → List ℕ → Opened) (short : IsShort w path_max) where
  openat_loop-Ends :
      (n : ℕ) (g : Goal) (k : ℕ) (r : Resolved)
      → k < n
      → Meets w g k r
      → Ends w opener g k (openat_loop n w opener r)
  unfolding openat_loop
  openat_loop-Ends zero g k r h m = absurd (omega arith)
  openat_loop-Ends (suc n) g k (Resolved.errno e) h m = (error e, m, Opens.not_found)
  openat_loop-Ends (suc n) g k Resolved.exhausted h m = absurd m
  openat_loop-Ends (suc n) g k (resolved realpath zero) h (st, f, a, l, m) =
      rw f (elim (Opened-cases (open_last w opener (or_slash (join st)))) [
        | inl e ↦ rw (e, openat_loop) (at st 0, m, Opens.opens e)
        | inr (inl (x, e)) ↦ rw (e, openat_loop) (at st 0, m, Opens.refused e)
        | inr (inr (t, e)) ↦ rw (e, openat_loop) (at st 0, m, Opens.too_many e)
      ])
  openat_loop-Ends (suc n) g k (resolved realpath (suc j)) h (st, f, a, l, m) =
      rw f (elim (Opened-cases (open_last w opener (or_slash (join st)))) [
        | inl e ↦ rw (e, openat_loop) (at st (suc j), m, Opens.opens e)
        | inr (inl (x, e)) ↦ rw (e, openat_loop) (at st (suc j), m, Opens.refused e)
        | inr (inr (t, e)) ↦
            let c : Meets w (from (pop st) t) j (resolve_path w (join (pop st)) t j) =
              resolve_path_lem w (pop st) t j short (All-pop st a) in
            let (o, q, r) =
              openat_loop-Ends n (from (pop st) t) j (resolve_path w (join (pop st)) t j)
                (omega (arith, h, l)) c in
            rw (e, openat_loop, remove_basename-or_slash st a)
              (at st (suc j), m, Opens.follow e q r)
      ])

resolve_pathat-some :
    (w : World) (dirpath pathname : List ℕ) (k : ℕ)
    → resolve_pathat w (some dirpath) pathname k ≡ resolve_path w dirpath pathname k
unfolding resolve_pathat
resolve_pathat-some w dirpath [] k = refl
resolve_pathat-some w dirpath (c ∷ cs) k = elim (Bool-cases (c == slash)) [
  | inl e ↦ rw (e, resolve_pathat) refl
  | inr e ↦ rw (e, resolve_pathat) refl
]

-- Opening a path from a directory with proper names always returns: the file at the place that the
-- path leads to, after at most 8 symbolic links on the way and in the last component together, or
-- the error of that way.
pub vfs_openat_lem :
    (w : World) (opener : ℕ → Mount → List ℕ → Opened) (st : List (List ℕ)) (pathname : List ℕ)
    → IsShort w path_max
    → All IsProper st
    → Ends w opener
        (from st pathname)
        max_symlink_level
        (vfs_openat w opener (some (join st)) pathname)
unfolding vfs_openat
vfs_openat_lem w opener st pathname short a = rw (resolve_pathat-some w (join st) pathname 8) (
    openat_loop-Ends w opener short 9 (from st pathname) 8 (resolve_path w (join st) pathname 8)
      (omega arith) (resolve_path_lem w st pathname 8 short a))
