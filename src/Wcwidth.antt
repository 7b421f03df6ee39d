-- ===== src/Wcwidth.antt =====
-- src/wcwidth.c: the column width of a character, with the binary search in the table of
-- combining characters. `max` is written `top - 1`, so the search runs over `min ≤ i < top`.
pub mod Tests
pub mod Search
pub mod Widths
use foreign_linux.Base.{
  ℕ, zero, suc, ◌+◌, ◌-◌, ◌/◌, Bool, true, false, ◌&&◌, ◌||◌, not, List, [], ◌∷◌, ltb, leb, ◌==◌,
  length, get_or, if◌then◌else◌,
}
use foreign_linux.Base.Int.{ℤ, pos, negsuc}

pub record Interval : Type 0 where
  pub first : ℕ
  pub last : ℕ

abbrev pub range : ℕ → ℕ → Interval
range a b = record { first = a; last = b }

abbrev pub entry : List Interval → ℕ → Interval
entry table i = get_or table i (range 0 0)

module _ (ucs : ℕ) (table : List Interval) where
  pub bisearch_loop : (fuel : ℕ) → (min top : ℕ) → Bool
  bisearch_loop zero min top = false
  bisearch_loop (suc fuel) min top =
      let mid = (min + (top - 1)) / 2 in
      let right = bisearch_loop fuel (mid + 1) top in
      let left = bisearch_loop fuel min mid in
      if leb top min
      then false
      else (if ltb (entry table mid).last ucs
          then right
          else (if ltb ucs (entry table mid).first then left else true))

  pub bisearch : Bool
  unfolding bisearch_loop
  bisearch =
      if ltb ucs (entry table 0).first || ltb (entry table (length table - 1)).last ucs
      then false
      else bisearch_loop (length table) 0 (length table)

unfoldable pub combining : List Interval
combining =
    range 768 879
    ∷ range 1155 1158
    ∷ range 1160 1161
    ∷ range 1425 1469
    ∷ range 1471 1471
    ∷ range 1473 1474
    ∷ range 1476 1477
    ∷ range 1479 1479
    ∷ range 1536 1539
    ∷ range 1552 1557
    ∷ range 1611 1630
    ∷ range 1648 1648
    ∷ range 1750 1764
    ∷ range 1767 1768
    ∷ range 1770 1773
    ∷ range 1807 1807
    ∷ range 1809 1809
    ∷ range 1840 1866
    ∷ range 1958 1968
    ∷ range 2027 2035
    ∷ range 2305 2306
    ∷ range 2364 2364
    ∷ range 2369 2376
    ∷ range 2381 2381
    ∷ range 2385 2388
    ∷ range 2402 2403
    ∷ range 2433 2433
    ∷ range 2492 2492
    ∷ range 2497 2500
    ∷ range 2509 2509
    ∷ range 2530 2531
    ∷ range 2561 2562
    ∷ range 2620 2620
    ∷ range 2625 2626
    ∷ range 2631 2632
    ∷ range 2635 2637
    ∷ range 2672 2673
    ∷ range 2689 2690
    ∷ range 2748 2748
    ∷ range 2753 2757
    ∷ range 2759 2760
    ∷ range 2765 2765
    ∷ range 2786 2787
    ∷ range 2817 2817
    ∷ range 2876 2876
    ∷ range 2879 2879
    ∷ range 2881 2883
    ∷ range 2893 2893
    ∷ range 2902 2902
    ∷ range 2946 2946
    ∷ range 3008 3008
    ∷ range 3021 3021
    ∷ range 3134 3136
    ∷ range 3142 3144
    ∷ range 3146 3149
    ∷ range 3157 3158
    ∷ range 3260 3260
    ∷ range 3263 3263
    ∷ range 3270 3270
    ∷ range 3276 3277
    ∷ range 3298 3299
    ∷ range 3393 3395
    ∷ range 3405 3405
    ∷ range 3530 3530
    ∷ range 3538 3540
    ∷ range 3542 3542
    ∷ range 3633 3633
    ∷ range 3636 3642
    ∷ range 3655 3662
    ∷ range 3761 3761
    ∷ range 3764 3769
    ∷ range 3771 3772
    ∷ range 3784 3789
    ∷ range 3864 3865
    ∷ range 3893 3893
    ∷ range 3895 3895
    ∷ range 3897 3897
    ∷ range 3953 3966
    ∷ range 3968 3972
    ∷ range 3974 3975
    ∷ range 3984 3991
    ∷ range 3993 4028
    ∷ range 4038 4038
    ∷ range 4141 4144
    ∷ range 4146 4146
    ∷ range 4150 4151
    ∷ range 4153 4153
    ∷ range 4184 4185
    ∷ range 4448 4607
    ∷ range 4959 4959
    ∷ range 5906 5908
    ∷ range 5938 5940
    ∷ range 5970 5971
    ∷ range 6002 6003
    ∷ range 6068 6069
    ∷ range 6071 6077
    ∷ range 6086 6086
    ∷ range 6089 6099
    ∷ range 6109 6109
    ∷ range 6155 6157
    ∷ range 6313 6313
    ∷ range 6432 6434
    ∷ range 6439 6440
    ∷ range 6450 6450
    ∷ range 6457 6459
    ∷ range 6679 6680
    ∷ range 6912 6915
    ∷ range 6964 6964
    ∷ range 6966 6970
    ∷ range 6972 6972
    ∷ range 6978 6978
    ∷ range 7019 7027
    ∷ range 7616 7626
    ∷ range 7678 7679
    ∷ range 8203 8207
    ∷ range 8234 8238
    ∷ range 8288 8291
    ∷ range 8298 8303
    ∷ range 8400 8431
    ∷ range 12330 12335
    ∷ range 12441 12442
    ∷ range 43014 43014
    ∷ range 43019 43019
    ∷ range 43045 43046
    ∷ range 64286 64286
    ∷ range 65024 65039
    ∷ range 65056 65059
    ∷ range 65279 65279
    ∷ range 65529 65531
    ∷ range 68097 68099
    ∷ range 68101 68102
    ∷ range 68108 68111
    ∷ range 68152 68154
    ∷ range 68159 68159
    ∷ range 119143 119145
    ∷ range 119155 119170
    ∷ range 119173 119179
    ∷ range 119210 119213
    ∷ range 119362 119364
    ∷ range 917505 917505
    ∷ range 917536 917631
    ∷ range 917760 917999
    ∷ []

abbrev pub is_wide : ℕ → Bool
is_wide ucs =
    leb 0x1100 ucs
    && (leb ucs 0x115f
        || (ucs == 0x2329
            || (ucs == 0x232a
                || ((leb 0x2e80 ucs && (leb ucs 0xa4cf && not (ucs == 0x303f)))
                    || ((leb 0xac00 ucs && leb ucs 0xd7a3)
                        || ((leb 0xf900 ucs && leb ucs 0xfaff)
                            || ((leb 0xfe10 ucs && leb ucs 0xfe19)
                                || ((leb 0xfe30 ucs && leb ucs 0xfe6f)
                                    || ((leb 0xff00 ucs && leb ucs 0xff60)
                                        || ((leb 0xffe0 ucs && leb ucs 0xffe6)
                                            || ((leb 0x20000 ucs && leb ucs 0x2fffd)
                                                || (leb 0x30000 ucs && leb ucs 0x3fffd))))))))))))

-- What follows the search, with its answer.
abbrev pub width : (ucs : ℕ) → (found : Bool) → ℤ
width ucs found =
    if ucs == 0
    then pos 0
    else (if ltb ucs 32 || (leb 0x7f ucs && ltb ucs 0xa0)
        then negsuc 0
        else (if found then pos 0 else (if is_wide ucs then pos 2 else pos 1)))

pub wcwidth : ℕ → ℤ
unfolding bisearch
wcwidth ucs = width ucs (bisearch ucs combining)
