-- ===== src/HashTable/Examples.antt =====
-- Runs of the hash sets, with numbers by their last digit in base 4.
use odd_job.Prelude.{ℕ, ◌%◌, ◌≡◌, refl, ap, true, List, [], ◌∷◌, arith, ◌==◌, ==_iff}
use odd_job.HashTable.{Hashing, add, remove, of_seq, union_with, arr_contains, arr_remove}

same_hash : (a b : ℕ) → (a == b) ≡ true → a % 4 ≡ b % 4
same_hash a b e = ap (λ n. n % 4) ((==_iff a b).0 e)

instance by_4 : Hashing ℕ
by_4 = record {
  equals = λ a b. a == b;
  hash = λ a. a % 4;
  equals_refl = λ a. ground arith;
  equals_symm = λ a b h. ground arith;
  equals_trans = λ a b d h k. ground arith;
  equals_hash = same_hash;
}

abbrev some_items : List ℕ
some_items = 5 ∷ 1 ∷ 2 ∷ 5 ∷ []

removed :
    (remove 5 (of_seq some_items)).1
    ≡ record { data_of = (1, 1 ∷ []) ∷ (2, 2 ∷ []) ∷ []; count = 2 }
unfolding by_4 remove of_seq union_with add arr_contains arr_remove
removed = refl
