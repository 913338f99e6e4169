-- ===== src/LikeQueries/Meanings.antt =====
-- What the rewritten conditions of LikeAnyExpressionReplacer.cs mean.
use odd_job.Prelude.{
  Text, ℕ, ◌≡◌, refl, sym, ◌∙◌, Bool, true, false, Option, none, some, List, [], ◌∷◌, ◌&&◌, ◌||◌,
  arith,
}
use odd_job.LikeQueries.{
  contains, any, all, Culture, like_any, like_any_lower, like_any_upper, like_all, like_all_lower,
  like_all_upper, Method, is_like_any, is_like_all, is_like_any_lower, is_like_all_lower,
  is_like_any_upper, is_like_all_upper, Operand, member, lower_call, upper_call, constant,
  Condition, contains_call, like_call, member_test, and_also, or_else, joined, join_values, or_call,
  visit_like_call,
}

-- The member of each parameter.
abbrev pub Members : Type 0
Members = ℕ → ℕ → Text

unfoldable pub value : Culture → Members → Operand → Text
value c env (member p f) = env p f
value c env (lower_call arg) = c.to_lower (value c env arg)
value c env (upper_call arg) = c.to_upper (value c env arg)
value c env (constant v) = v

-- A call's meaning is that of the test it names.
unfoldable pub like : Culture → Method → Text → List Text → Bool
like c is_like_any s values = like_any s values
like c is_like_all s values = like_all s values
like c is_like_any_lower s values = like_any_lower c s values
like c is_like_all_lower s values = like_all_lower c s values
like c is_like_any_upper s values = like_any_upper c s values
like c is_like_all_upper s values = like_all_upper c s values

abbrev pub like_values : Culture → Method → Text → Option (List Text) → Bool
like_values c name s none = c.null_set
like_values c name s (some values) = like c name s values

unfoldable pub holds : Culture → Members → Condition → Bool
holds c env (contains_call arg v) = contains v (value c env arg)
holds c env (like_call name arg values) = like_values c name (value c env arg) values
holds c env (member_test p arg) = p (value c env arg)
holds c env (and_also d e) = holds c env d && holds c env e
holds c env (or_else d e) = holds c env d || holds c env e

-- The sets that the replacer reads whole.
unfoldable pub is_whole : Method → List Text → Bool
is_whole is_like_any values = true
is_whole is_like_all values = true
is_whole name [] = true
is_whole name (_ ∷ []) = true
is_whole name (_ ∷ _ ∷ _) = false

pub or_assoc : (a b c : Bool) → ((a || b) || c) ≡ (a || (b || c))
or_assoc true b c = refl
or_assoc false b c = refl

pub and_assoc : (a b c : Bool) → ((a && b) && c) ≡ (a && (b && c))
and_assoc true b c = refl
and_assoc false b c = refl

pub or_false : (a : Bool) → (a || false) ≡ a
or_false true = refl
or_false false = refl

pub and_true : (a : Bool) → (a && true) ≡ a
and_true true = refl
and_true false = refl

module _ (c : Culture) (env : Members) (call : Condition) (arg : Operand) where
  abbrev after : Method → Condition → List Text → Bool
  after name res values = holds c env (or_call call (join_values c name arg (some res) values))

  after-any :
      (res : Condition) (values : List Text)
      → after is_like_any res values ≡ (holds c env res || like_any (value c env arg) values)
  unfolding join_values joined like_any any holds
  after-any res [] = sym (or_false (holds c env res))
  after-any res (o ∷ values) =
      after-any (or_else res (contains_call arg o)) values
      ∙ or_assoc (holds c env res) (contains o (value c env arg))
          (like_any (value c env arg) values)

  after-all :
      (res : Condition) (values : List Text)
      → after is_like_all res values ≡ (holds c env res && like_all (value c env arg) values)
  unfolding join_values joined like_all all holds
  after-all res [] = sym (and_true (holds c env res))
  after-all res (o ∷ values) =
      after-all (and_also res (contains_call arg o)) values
      ∙ and_assoc (holds c env res) (contains o (value c env arg))
          (like_all (value c env arg) values)

module _ (c : Culture) (env : Members) (p f : ℕ) where
  abbrev visited : Method → List Text → Bool
  visited name values = holds c env (visit_like_call c name (member p f) (some values))

  visited-any :
      (values : List Text) → visited is_like_any values ≡ like c is_like_any (env p f) values
  unfolding visit_like_call join_values joined holds value like like_any any
  visited-any [] = refl
  visited-any (o ∷ values) =
      after-any c env (like_call is_like_any (member p f) (some (o ∷ values))) (member p f)
        (contains_call (member p f) o) values

  visited-all :
      (values : List Text) → visited is_like_all values ≡ like c is_like_all (env p f) values
  unfolding visit_like_call join_values joined holds value like like_all all
  visited-all [] = refl
  visited-all (o ∷ values) =
      after-all c env (like_call is_like_all (member p f) (some (o ∷ values))) (member p f)
        (contains_call (member p f) o) values

  pub visited-one :
      (name : Method) (o : Text) → visited name (o ∷ []) ≡ like c name (env p f) (o ∷ [])
  unfolding visit_like_call join_values joined holds value like like_any like_any_lower
      like_any_upper like_all like_all_lower like_all_upper any all
  visited-one is_like_any o = sym (or_false (contains o (env p f)))
  visited-one is_like_all o = sym (and_true (contains o (env p f)))
  visited-one is_like_any_lower o = sym (or_false (contains (c.to_lower o) (c.to_lower (env p f))))
  visited-one is_like_all_lower o = sym (and_true (contains (c.to_lower o) (c.to_lower (env p f))))
  visited-one is_like_any_upper o = sym (or_false (contains (c.to_upper o) (c.to_upper (env p f))))
  visited-one is_like_all_upper o = sym (and_true (contains (c.to_upper o) (c.to_upper (env p f))))

  pub visited-whole :
      (name : Method) (values : List Text)
      → is_whole name values ≡ true
      → visited name values ≡ like c name (env p f) values
  unfolding is_whole visit_like_call join_values holds value
  visited-whole is_like_any values h = visited-any values
  visited-whole is_like_all values h = visited-all values
  visited-whole name [] h = refl
  visited-whole name (o ∷ []) h = visited-one name o
  visited-whole is_like_any_lower (o ∷ q ∷ values) h = absurd (ground arith)
  visited-whole is_like_all_lower (o ∷ q ∷ values) h = absurd (ground arith)
  visited-whole is_like_any_upper (o ∷ q ∷ values) h = absurd (ground arith)
  visited-whole is_like_all_upper (o ∷ q ∷ values) h = absurd (ground arith)
