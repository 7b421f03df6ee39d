-- ===== src/Format/Atoi.antt =====
-- katoi and katou of src/str.c.
-- The result is the return value and what was stored through `out`, if anything.
pub mod Laws
use foreign_linux.Base.{
  ℕ, ◌%◌, ◌^◌, Bool, true, false, ◌&&◌, Option, none, some, List, [], ◌∷◌, ◌==◌, length,
}
use foreign_linux.Format.Scan.{kvsscanf, Scan, done, past_format, running}

-- `r == 1 && readlen == len`; `readlen` is read only where `%n` has stored it.
abbrev verdict : List ℕ → Scan → Bool × Option ℕ
verdict str (done r (v ∷ readlen ∷ [])) = (r == 1 && readlen == length str % 2 ^ 32, some v)
verdict str (done r (v ∷ stores)) = (false, some v)
verdict str _ = (false, none)

pub katoi : List ℕ → Bool × Option ℕ
katoi str = verdict str (kvsscanf str (b'%' ∷ b'd' ∷ b'%' ∷ b'n' ∷ []))

pub katou : List ℕ → Bool × Option ℕ
katou str = verdict str (kvsscanf str (b'%' ∷ b'u' ∷ b'%' ∷ b'n' ∷ []))
