-- ===== src/LikeQueries/Rewritten.antt =====
-- Rewriting by LikeAnyExpressionReplacer.cs keeps a condition's meaning, or does not.
use odd_job.Prelude.{
  Text, ℕ, ◌≡◌, refl, ap, ◌∙◌, Bool, true, false, none, some, List, [], ◌∷◌, ◌&&◌, ◌||◌, arith,
}
use odd_job.LikeQueries.{
  Culture, Method, is_like_any, is_like_all, is_like_any_lower, is_like_all_lower,
  is_like_any_upper, is_like_all_upper, Operand, member, lower_call, upper_call, constant,
  Condition, contains_call, like_call, member_test, and_also, or_else, as_lower, as_upper,
  arg_member, new_val, joined, join_values, or_call, visit_like_call, process_expression,
}
use odd_job.LikeQueries.Meanings.{Members, value, like, holds, is_whole, visited-whole, visited-one}

-- Every set of a call in a condition is read whole.
unfoldable pub are_whole : Condition → Bool
are_whole (contains_call _ _) = true
are_whole (like_call name arg none) = true
are_whole (like_call name arg (some values)) = is_whole name values
are_whole (member_test _ _) = true
are_whole (and_also d e) = are_whole d && are_whole e
are_whole (or_else d e) = are_whole d && are_whole e

both : (a b : Bool) → (a && b) ≡ true → (a ≡ true) × (b ≡ true)
both true b h = (refl, h)
both false b h = absurd (ground arith)

module _ (c : Culture) (env : Members) where
  call-whole :
      (name : Method) (arg : Operand) (values : List Text)
      → is_whole name values ≡ true
      → holds c env (visit_like_call c name arg (some values))
        ≡ like c name (value c env arg) values
  unfolding visit_like_call holds value
  call-whole name (member p f) values h = visited-whole c env p f name values h
  call-whole name (lower_call arg) values h = refl
  call-whole name (upper_call arg) values h = refl
  call-whole name (constant v) values h = refl

  -- Rewriting leaves a condition's meaning as it is, where each call of a test is of `LikeAny` or
  -- `LikeAll`, or has a null set or at most one value: the call that is replaced and the call that is
  -- left mean what the test of that name says.
  pub process_expression-holds :
      (e : Condition) → are_whole e ≡ true → holds c env (process_expression c e) ≡ holds c env e
  unfolding process_expression are_whole holds visit_like_call
  process_expression-holds (contains_call arg v) h = refl
  process_expression-holds (like_call name arg none) h = refl
  process_expression-holds (like_call name arg (some values)) h = call-whole name arg values h
  process_expression-holds (member_test p arg) h = refl
  process_expression-holds (and_also d e) h =
      let (a, b) = both (are_whole d) (are_whole e) h in
      rw (process_expression-holds d a, process_expression-holds e b) refl
  process_expression-holds (or_else d e) h =
      let (a, b) = both (are_whole d) (are_whole e) h in
      rw (process_expression-holds d a, process_expression-holds e b) refl

-- The tests on one case of letters.
unfoldable pub is_cased : Method → Bool
is_cased name = as_lower name || as_upper name

cased-joined :
    (name : Method) (res e : Condition) → is_cased name ≡ true → joined name (some res) e ≡ res
unfolding is_cased joined
cased-joined is_like_any res e h = absurd (ground arith)
cased-joined is_like_all res e h = absurd (ground arith)
cased-joined is_like_any_lower res e h = refl
cased-joined is_like_all_lower res e h = refl
cased-joined is_like_any_upper res e h = refl
cased-joined is_like_all_upper res e h = refl

cased-join_values :
    (c : Culture) (name : Method) (arg : Operand) (res : Condition) (values : List Text)
    → is_cased name ≡ true
    → join_values c name arg (some res) values ≡ some res
unfolding join_values
cased-join_values c name arg res [] h = refl
cased-join_values c name arg res (o ∷ values) h =
    let e = contains_call (arg_member name arg) (new_val c name o) in
    ap (λ r. join_values c name arg (some r) values) (cased-joined name res e h)
    ∙ cased-join_values c name arg res values h

-- A call of a test on one case of letters, on a member and with a set that is not empty, is rewritten
-- to the test of the first value: whatever else is in the set, it means what the call means with that
-- value alone.
pub process_expression-first_only :
    (c : Culture) (env : Members) (name : Method) (p f : ℕ) (o : Text) (values : List Text)
    → is_cased name ≡ true
    → holds c env (process_expression c (like_call name (member p f) (some (o ∷ values))))
      ≡ holds c env (like_call name (member p f) (some (o ∷ [])))
unfolding process_expression visit_like_call join_values joined holds value
process_expression-first_only c env name p f o values h =
    let test = contains_call (arg_member name (member p f)) (new_val c name o) in
    let call = like_call name (member p f) (some (o ∷ values)) in
    ap (λ r. holds c env (or_call call r)) (cased-join_values c name (member p f) test values h)
    ∙ visited-one c env p f name o
