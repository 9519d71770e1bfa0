-- ===== src/Tests/Sort.antt =====
-- Values of a column compared, and rows sorted.
use gokql.Base.{◌≡◌, ◌⊎◌, refl, inl, inr, true, false, List, [], ◌∷◌}
use gokql.Base.Int.{pos, negsuc, neg_ℤ, ◌≤ℤ◌}
use gokql.Types.KqlType.{string, long}
use gokql.Types.Value.{null, long_value, string_value, compare_values}
use gokql.Types.Value.Cells.{compare_values_lem}
use gokql.Tests.Plain.{plain}
use gokql.Engine.Sort.{nulls_default, nulls_last, SortCol, Row, less}
use gokql.Engine.Sort.Order.{less_lem}

compare_values_example :
    (compare_values plain long (long_value (negsuc 4)) null
      ≡ neg_ℤ (compare_values plain long null (long_value (negsuc 4))))
    × ((pos 1 ≤ℤ compare_values plain long null (long_value (negsuc 4)))
        ⊎ (pos 1 ≤ℤ compare_values plain long (long_value (negsuc 4)) (long_value (pos 7)))
        ⊎ (compare_values plain long null (long_value (pos 7)) ≤ℤ pos 0))
compare_values_example =
    compare_values_lem plain long null (long_value (negsuc 4)) (long_value (pos 7)) (inl refl)
      (inr (negsuc 4, tt, refl)) (inr (pos 7, tt, refl))

-- By the first column, nulls last, then by the second from the greatest down.
abbrev by_two : List SortCol
by_two =
    record { idx = 0; type = long; desc = false; nulls = nulls_last }
    ∷ record { idx = 1; type = string; desc = true; nulls = nulls_default }
    ∷ []

abbrev row_one : Row
row_one = long_value (pos 3) ∷ string_value (98 ∷ []) ∷ []

abbrev row_two : Row
row_two = long_value (pos 3) ∷ string_value (97 ∷ []) ∷ []

abbrev row_three : Row
row_three = null ∷ string_value (99 ∷ []) ∷ []

one_before_two : less plain by_two row_one row_two ≡ true
unfolding less
one_before_two = refl

null_last : less plain by_two row_three row_one ≡ false
unfolding less
null_last = refl

less_example :
    (less plain by_two row_three row_one ≡ false)
    × ((less plain by_two row_one row_two ≡ true) ⊎ (less plain by_two row_two row_three ≡ true))
unfolding less
less_example =
    less_lem plain by_two row_one row_two row_three
      (inr (pos 3, tt, refl), (inr (98 ∷ [], tt, refl), tt))
      (inr (pos 3, tt, refl), (inr (97 ∷ [], tt, refl), tt))
      (inl refl, (inr (99 ∷ [], tt, refl), tt)) refl
