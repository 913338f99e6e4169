-- ===== src/Seq/Examples.antt =====
-- Runs of the functions on sequences.
use odd_job.Prelude.{ℕ, ◌≡◌, refl, Bool, some, List, [], ◌∷◌, ltb}
use odd_job.Comparable.{number}
use odd_job.Seq.Loops.{nth, nth_from, try_find_from, try_find_index_from, try_find, try_find_index}

abbrev five : List ℕ
five = 4 ∷ 7 ∷ 1 ∷ 7 ∷ 3 ∷ []

abbrev over_5 : ℕ → Bool
over_5 x = ltb 5 x

five_runs :
    (nth 1 five ≡ some 7) × (try_find_index over_5 five ≡ some 1) × (try_find over_5 five ≡ some 7)
unfolding nth nth_from try_find_index try_find_index_from try_find try_find_from
five_runs = (refl, refl, refl)
