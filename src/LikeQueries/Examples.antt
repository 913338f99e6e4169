-- ===== src/LikeQueries/Examples.antt =====
-- Conditions on rows with the letters of ASCII.
use odd_job.Prelude.{
  Text, ℕ, ◌+◌, ◌-◌, ◌≡◌, refl, true, false, some, List, [], ◌∷◌, ◌==◌, if◌then◌else◌, ◌&&◌, leb,
  map,
}
use odd_job.LikeQueries.{
  contains, any, all, Culture, like_any_lower, is_like_any, is_like_any_lower, member, Condition,
  like_call, and_also, Lambda, join_values, joined, visit_like_call, process_expression,
  contains_call,
}
use odd_job.LikeQueries.Meanings.{Members, value, like, holds, is_whole}
use odd_job.LikeQueries.Rewritten.{
  are_whole, process_expression-holds, is_cased, process_expression-first_only,
}
use odd_job.LikeQueries.Combined.{
  matches, Uses, OperandUses, IsClosed, add_all, combine_binary_expression-matches,
}

abbrev ascii : Culture
ascii = record {
  to_lower = map (λ c. if leb 65 c && leb c 90 then c + 32 else c);
  to_upper = map (λ c. if leb 97 c && leb c 122 then c - 32 else c);
  null_set = false;
}

-- `Failed`, in member 1 of every parameter.
abbrev failed_row : ℕ → Text
failed_row f = if f == 1 then 70 ∷ 97 ∷ 105 ∷ 108 ∷ 101 ∷ 100 ∷ [] else []

abbrev members : Members
members p = failed_row

-- `new` and `FAIL`
abbrev two_values : List Text
two_values = (110 ∷ 101 ∷ 119 ∷ []) ∷ (70 ∷ 65 ∷ 73 ∷ 76 ∷ []) ∷ []

abbrev search : Condition
search =
    and_also (like_call is_like_any (member 0 1) (some two_values))
      (like_call is_like_any_lower (member 0 1) (some ((70 ∷ 65 ∷ []) ∷ [])))

search-whole : are_whole search ≡ true
unfolding are_whole is_whole
search-whole = refl

process_expression-holds_example :
    holds ascii members (process_expression ascii search) ≡ holds ascii members search
process_expression-holds_example = process_expression-holds ascii members search search-whole

lower-cased : is_cased is_like_any_lower ≡ true
unfolding is_cased
lower-cased = refl

process_expression-first_only_example :
    holds ascii members
      (process_expression ascii (like_call is_like_any_lower (member 0 1) (some two_values)))
    ≡ holds ascii members
        (like_call is_like_any_lower (member 0 1) (some ((110 ∷ 101 ∷ 119 ∷ []) ∷ [])))
process_expression-first_only_example =
    process_expression-first_only ascii members is_like_any_lower 0 1 (110 ∷ 101 ∷ 119 ∷ [])
      ((70 ∷ 65 ∷ 73 ∷ 76 ∷ []) ∷ []) lower-cased

-- The call finds the row by its second value, and what replaces it does not.
second_value-lost :
    (holds ascii members (like_call is_like_any_lower (member 0 1) (some two_values)) ≡ true)
    × (holds ascii members
          (process_expression ascii (like_call is_like_any_lower (member 0 1) (some two_values)))
        ≡ false)
unfolding process_expression visit_like_call join_values joined holds value like like_any_lower any
    contains
second_value-lost = (refl, refl)

abbrev criterion : ℕ → Text → Lambda
criterion p v = record { parameter = p; body = contains_call (member p 1) v }

criterion-IsClosed : (p : ℕ) (v : Text) → IsClosed (criterion p v)
unfolding Uses OperandUses
criterion-IsClosed p v = refl

combine_binary_expression-matches_example :
    (matches ascii members failed_row
        (add_all false (criterion 3 (78 ∷ [])) (criterion 4 (70 ∷ []) ∷ []))
      ≡ any
          (λ g. matches ascii members failed_row g)
          (criterion 3 (78 ∷ []) ∷ criterion 4 (70 ∷ []) ∷ []))
    × (matches ascii members failed_row
          (add_all true (criterion 3 (78 ∷ [])) (criterion 4 (70 ∷ []) ∷ []))
        ≡ all
            (λ g. matches ascii members failed_row g)
            (criterion 3 (78 ∷ []) ∷ criterion 4 (70 ∷ []) ∷ []))
combine_binary_expression-matches_example =
    combine_binary_expression-matches ascii members failed_row (criterion 3 (78 ∷ []))
      (criterion 4 (70 ∷ []) ∷ [])
      (criterion-IsClosed 3 (78 ∷ []), (criterion-IsClosed 4 (70 ∷ []), tt))
