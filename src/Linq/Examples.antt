-- ===== src/Linq/Examples.antt =====
-- Runs of the operators of Linq.
use odd_job.Prelude.{ℕ, ◌≡◌, refl, Bool, some, List, [], ◌∷◌, ltb}
use odd_job.Linq.{single, single_from}

abbrev items : List ℕ
items = 3 ∷ 8 ∷ 4 ∷ []

abbrev over_5 : ℕ → Bool
over_5 x = ltb 5 x

one_over_5 : single items over_5 ≡ some 8
unfolding single single_from
one_over_5 = refl
