-- ===== src/LikeQueries/Combined.antt =====
-- What the conditions mean that `CombineBinaryExpression` of ExpressionHelpers.cs puts together.
use odd_job.Prelude.{
  Text, ℕ, ◌≡◌, refl, sym, ap, ◌∙◌, Bool, true, false, some, List, [], ◌∷◌, ◌==◌, ==_iff,
  if◌then◌else◌, ◌&&◌, ◌||◌, if-true,
}
use odd_job.SortedList.{All}
use odd_job.LikeQueries.{
  any, all, Culture, Operand, member, lower_call, upper_call, constant, Condition, contains_call,
  like_call, member_test, and_also, or_else, Lambda, swap_operand, swap, combine_binary_expression,
}
use odd_job.LikeQueries.Meanings.{
  Members, value, like_values, holds, or_assoc, and_assoc, or_false, and_true,
}

-- A lambda's parameter is bound to a row, over the members of the parameters outside.
abbrev pub bind : ℕ → (ℕ → Text) → Members → Members
bind p row outer q = if q == p then row else outer q

unfoldable pub matches : Culture → Members → (ℕ → Text) → Lambda → Bool
matches c outer row f = holds c (bind f.parameter row outer) f.body

-- Every member is one of the parameter.
unfoldable pub OperandUses : ℕ → Operand → Type 0
OperandUses p (member q f) = q ≡ p
OperandUses p (lower_call arg) = OperandUses p arg
OperandUses p (upper_call arg) = OperandUses p arg
OperandUses p (constant v) = Unit

unfoldable pub Uses : ℕ → Condition → Type 0
Uses p (contains_call arg v) = OperandUses p arg
Uses p (like_call name arg values) = OperandUses p arg
Uses p (member_test t arg) = OperandUses p arg
Uses p (and_also d e) = Uses p d × Uses p e
Uses p (or_else d e) = Uses p d × Uses p e

is_same : (n : ℕ) → (n == n) ≡ true
is_same n = (==_iff n n).1 refl

bind-same : (p : ℕ) (row : ℕ → Text) (outer : Members) → bind p row outer p ≡ row
bind-same p row outer = if-true row (outer p) (is_same p)

module _ (c : Culture) (outer : Members) (row : ℕ → Text) (from to : ℕ) where
  abbrev bound : ℕ → Members
  bound p = bind p row outer

  value-swap :
      (arg : Operand)
      → OperandUses from arg
      → value c (bound to) (swap_operand from to arg) ≡ value c (bound from) arg
  unfolding value swap_operand OperandUses
  value-swap (member q f) h = rw (h, is_same from) (ap (λ r. r f) (bind-same to row outer))
  value-swap (lower_call arg) h = ap c.to_lower (value-swap arg h)
  value-swap (upper_call arg) h = ap c.to_upper (value-swap arg h)
  value-swap (constant v) h = refl

  holds-swap :
      (e : Condition) → Uses from e → holds c (bound to) (swap from to e) ≡ holds c (bound from) e
  unfolding holds swap Uses
  holds-swap (contains_call arg v) h = rw (value-swap arg h) refl
  holds-swap (like_call name arg values) h =
      ap (λ s. like_values c name s values) (value-swap arg h)
  holds-swap (member_test p arg) h = ap p (value-swap arg h)
  holds-swap (and_also d e) h = rw (holds-swap d h.0, holds-swap e h.1) refl
  holds-swap (or_else d e) h = rw (holds-swap d h.0, holds-swap e h.1) refl

module _ (from to : ℕ) where
  swap_operand-Uses :
      (arg : Operand) → OperandUses from arg → OperandUses to (swap_operand from to arg)
  unfolding OperandUses swap_operand
  swap_operand-Uses (member q f) h = rw (h, is_same from) refl
  swap_operand-Uses (lower_call arg) h = swap_operand-Uses arg h
  swap_operand-Uses (upper_call arg) h = swap_operand-Uses arg h
  swap_operand-Uses (constant v) h = tt

  swap-Uses : (e : Condition) → Uses from e → Uses to (swap from to e)
  unfolding Uses swap
  swap-Uses (contains_call arg v) h = swap_operand-Uses arg h
  swap-Uses (like_call name arg values) h = swap_operand-Uses arg h
  swap-Uses (member_test p arg) h = swap_operand-Uses arg h
  swap-Uses (and_also d e) h = (swap-Uses d h.0, swap-Uses e h.1)
  swap-Uses (or_else d e) h = (swap-Uses d h.0, swap-Uses e h.1)

-- A condition on its own parameter alone.
abbrev pub IsClosed : Lambda → Type 0
IsClosed f = Uses f.parameter f.body

-- A search adds its criteria one after the other to a condition that is null at first.
unfoldable pub add_all : Bool → Lambda → List Lambda → Lambda
add_all true_and expr [] = expr
add_all true_and expr (g ∷ gs) =
    add_all true_and (combine_binary_expression (some expr) g true_and) gs

combined-IsClosed :
    (f g : Lambda) (true_and : Bool)
    → IsClosed f
    → IsClosed g
    → IsClosed (combine_binary_expression (some f) g true_and)
unfolding combine_binary_expression Uses
combined-IsClosed f g true h k = (swap-Uses f.parameter g.parameter f.body h, k)
combined-IsClosed f g false h k = (swap-Uses f.parameter g.parameter f.body h, k)

module _ (c : Culture) (outer : Members) (row : ℕ → Text) where
  abbrev does : Lambda → Bool
  does f = matches c outer row f

  both-match :
      (f g : Lambda)
      → IsClosed f
      → does (combine_binary_expression (some f) g true) ≡ (does f && does g)
  unfolding combine_binary_expression matches holds
  both-match f g h = ap (λ b. b && does g) (holds-swap c outer row f.parameter g.parameter f.body h)

  either-matches :
      (f g : Lambda)
      → IsClosed f
      → does (combine_binary_expression (some f) g false) ≡ (does f || does g)
  unfolding combine_binary_expression matches holds
  either-matches f g h =
      ap (λ b. b || does g) (holds-swap c outer row f.parameter g.parameter f.body h)

  any-matches :
      (f : Lambda) (gs : List Lambda)
      → IsClosed f
      → All IsClosed gs
      → does (add_all false f gs) ≡ (does f || any does gs)
  unfolding add_all any
  any-matches f [] h k = sym (or_false (does f))
  any-matches f (g ∷ gs) h k =
      any-matches (combine_binary_expression (some f) g false) gs
        (combined-IsClosed f g false h k.0) k.1
      ∙ ap (λ b. b || any does gs) (either-matches f g h)
      ∙ or_assoc (does f) (does g) (any does gs)

  all-match :
      (f : Lambda) (gs : List Lambda)
      → IsClosed f
      → All IsClosed gs
      → does (add_all true f gs) ≡ (does f && all does gs)
  unfolding add_all all
  all-match f [] h k = sym (and_true (does f))
  all-match f (g ∷ gs) h k =
      all-match (combine_binary_expression (some f) g true) gs (combined-IsClosed f g true h k.0)
        k.1
      ∙ ap (λ b. b && all does gs) (both-match f g h)
      ∙ and_assoc (does f) (does g) (all does gs)

-- Criteria, each on its own parameter alone, that are put together one after the other, whatever
-- their parameters are called: a row matches the whole if it matches one of them, and where all are
-- asked for, if it matches each.
pub combine_binary_expression-matches :
    (c : Culture) (outer : Members) (row : ℕ → Text) (f : Lambda) (gs : List Lambda)
    → All IsClosed (f ∷ gs)
    → (matches c outer row (add_all false f gs) ≡ any (λ g. matches c outer row g) (f ∷ gs))
      × (matches c outer row (add_all true f gs) ≡ all (λ g. matches c outer row g) (f ∷ gs))
unfolding any all
combine_binary_expression-matches c outer row f gs h =
    (any-matches c outer row f gs h.0 h.1, all-match c outer row f gs h.0 h.1)
