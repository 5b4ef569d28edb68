-- ===== src/Tests/Table.antt =====
-- Two philosophers at a table: both have arrived, the first eats, and the second waits.
use disasteros.Common.{refl, arith}
use disasteros.Symposium.{
  SymposiumTable, symposium_table_init, arrive, get_hungry, test_hungry, trytoeat, left_of,
  right_of, Dinner, start, course, arrives, hungers,
}
use disasteros.Symposium.Meal.{Orderly, Dinner-Orderly}

abbrev seated : SymposiumTable
seated = arrive 1 (arrive 0 (symposium_table_init 2))

abbrev served : SymposiumTable
served = get_hungry 1 (get_hungry 0 seated)

dinner : Dinner (symposium_table_init 2) served
unfolding symposium_table_init arrive get_hungry test_hungry trytoeat left_of right_of
dinner =
    course
      (course (course (course start (arrives 0 (omega arith) refl)) (arrives 1 (omega arith) refl))
        (hungers 0 (omega arith) refl))
      (hungers 1 (omega arith) refl)

Dinner-Orderly_example : Orderly served
Dinner-Orderly_example = Dinner-Orderly (omega arith) dinner
