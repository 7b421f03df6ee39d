-- ===== src/Wcwidth/Tests.antt =====
-- src/wcwidth.c at a combining accent.
use foreign_linux.Base.{ℕ, ◌≡◌, ◌↔◌, refl, true, List, [], ◌∷◌, arith}
use foreign_linux.Wcwidth.{Interval, range, bisearch}
use foreign_linux.Wcwidth.Search.{ascending, Holds, bisearch_iff}

abbrev small_table : List Interval
small_table = range 3 5 ∷ range 9 9 ∷ []

bisearch_iff_example : (bisearch 9 small_table ≡ true) ↔ ((i : ℕ) × Holds small_table 9 i)
unfolding ascending
bisearch_iff_example = bisearch_iff small_table 9 refl (omega arith)
