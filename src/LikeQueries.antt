-- ===== src/LikeQueries.antt =====
-- GlutenFree.Linq2Db.Helpers: conditions on rows as expression trees. ExprHelpers.cs has the tests on
-- texts, LikeAnyExpressionReplacer.cs and ExpressionReplacingLinq2DbConnection.cs rewrite their calls
-- for the database, ExpressionHelpers.cs and SwapVisitor.cs put two conditions together. A text is its
-- character codes; a parameter, a member and a constant's place are numbers. The members and the
-- values are not null.
pub mod Meanings
pub mod Combined
pub mod Rewritten
mod Examples
use odd_job.Prelude.{
  Text, ℕ, Bool, true, false, Option, none, some, List, [], ◌∷◌, ◌==◌, if◌then◌else◌, ◌&&◌, ◌||◌,
}
use odd_job.JobSerializer.{starts_with}

-- `String.Contains`
unfoldable pub contains : Text → Text → Bool
contains v [] = starts_with v []
contains v (c ∷ s) = starts_with v (c ∷ s) || contains v s

unfoldable pub any {ℓ} : {A : Type ℓ} → (A → Bool) → List A → Bool
any p [] = false
any p (x ∷ xs) = p x || any p xs

unfoldable pub all {ℓ} : {A : Type ℓ} → (A → Bool) → List A → Bool
all p [] = true
all p (x ∷ xs) = p x && all p xs

-- `ToLower` and `ToUpper` of the present culture, and what a query makes of a set that is null.
pub record Culture : Type 0 where
  pub to_lower : Text → Text
  pub to_upper : Text → Text
  pub null_set : Bool

-- The six tests of ExprHelpers.
unfoldable pub like_any : Text → List Text → Bool
like_any my_string like_set = any (λ s. contains s my_string) like_set

unfoldable pub like_any_lower : Culture → Text → List Text → Bool
like_any_lower c my_string like_set =
    any (λ s. contains (c.to_lower s) (c.to_lower my_string)) like_set

unfoldable pub like_any_upper : Culture → Text → List Text → Bool
like_any_upper c my_string like_set =
    any (λ s. contains (c.to_upper s) (c.to_upper my_string)) like_set

unfoldable pub like_all : Text → List Text → Bool
like_all my_string like_set = all (λ s. contains s my_string) like_set

unfoldable pub like_all_lower : Culture → Text → List Text → Bool
like_all_lower c my_string like_set =
    all (λ s. contains (c.to_lower s) (c.to_lower my_string)) like_set

unfoldable pub like_all_upper : Culture → Text → List Text → Bool
like_all_upper c my_string like_set =
    all (λ s. contains (c.to_upper s) (c.to_upper my_string)) like_set

-- A method by its name.
pub data Method : Type 0 where
  is_like_any : Method
  is_like_all : Method
  is_like_any_lower : Method
  is_like_all_lower : Method
  is_like_any_upper : Method
  is_like_all_upper : Method

-- `EndsWith("Upper")` and `EndsWith("Lower")` of the name.
abbrev pub as_upper : Method → Bool
as_upper is_like_any_upper = true
as_upper is_like_all_upper = true
as_upper _ = false

abbrev pub as_lower : Method → Bool
as_lower is_like_any_lower = true
as_lower is_like_all_lower = true
as_lower _ = false

-- A member of a parameter, a call of `ToLower` or `ToUpper` on an operand, or a constant.
pub data Operand : Type 0 where
  member : ℕ → ℕ → Operand
  lower_call : Operand → Operand
  upper_call : Operand → Operand
  constant : Text → Operand

-- A condition: an operand contains a text, a call of one of the tests with its set, which may be null
-- at run time, another condition on a member, and two conditions together.
pub data Condition : Type 0 where
  contains_call : Operand → Text → Condition
  like_call : Method → Operand → Option (List Text) → Condition
  member_test : (Text → Bool) → Operand → Condition
  and_also : Condition → Condition → Condition
  or_else : Condition → Condition → Condition

abbrev pub is_member : Operand → Bool
is_member (member _ _) = true
is_member _ = false

-- The parts of `VisitMethodCall`.
abbrev pub arg_member : Method → Operand → Operand
arg_member name arg =
    if as_lower name then lower_call arg else (if as_upper name then upper_call arg else arg)

abbrev pub new_val : Culture → Method → Text → Text
new_val c name o =
    if as_upper name then c.to_upper o else (if as_lower name then c.to_lower o else o)

unfoldable pub joined : Method → Option Condition → Condition → Condition
joined name none equals_expr = equals_expr
joined is_like_any (some res) equals_expr = or_else res equals_expr
joined is_like_all (some res) equals_expr = and_also res equals_expr
joined is_like_any_lower (some res) equals_expr = res
joined is_like_all_lower (some res) equals_expr = res
joined is_like_any_upper (some res) equals_expr = res
joined is_like_all_upper (some res) equals_expr = res

unfoldable pub join_values :
    Culture → Method → Operand → Option Condition → List Text → Option Condition
join_values c name arg res [] = res
join_values c name arg res (o ∷ values) =
    let equals_expr = contains_call (arg_member name arg) (new_val c name o) in
    join_values c name arg (some (joined name res equals_expr)) values

abbrev pub or_call : Condition → Option Condition → Condition
or_call call none = call
or_call call (some res) = res

unfoldable pub visit_like_call : Culture → Method → Operand → Option (List Text) → Condition
visit_like_call c name arg none = like_call name arg none
visit_like_call c name arg (some values) =
    let call = like_call name arg (some values) in
    if is_member arg then or_call call (join_values c name arg none values) else call

-- `Visit` of the replacer, and `ProcessExpression` with no visitors of its own.
unfoldable pub process_expression : Culture → Condition → Condition
process_expression c (contains_call arg v) = contains_call arg v
process_expression c (like_call name arg values) = visit_like_call c name arg values
process_expression c (member_test p arg) = member_test p arg
process_expression c (and_also d e) = and_also (process_expression c d) (process_expression c e)
process_expression c (or_else d e) = or_else (process_expression c d) (process_expression c e)

-- `Expression<Func<T, bool>>`
pub record Lambda : Type 0 where
  pub parameter : ℕ
  pub body : Condition

-- `SwapVisitor`
unfoldable pub swap_operand : ℕ → ℕ → Operand → Operand
swap_operand from to (member p f) = if p == from then member to f else member p f
swap_operand from to (lower_call arg) = lower_call (swap_operand from to arg)
swap_operand from to (upper_call arg) = upper_call (swap_operand from to arg)
swap_operand from to (constant v) = constant v

unfoldable pub swap : ℕ → ℕ → Condition → Condition
swap from to (contains_call arg v) = contains_call (swap_operand from to arg) v
swap from to (like_call name arg values) = like_call name (swap_operand from to arg) values
swap from to (member_test p arg) = member_test p (swap_operand from to arg)
swap from to (and_also d e) = and_also (swap from to d) (swap from to e)
swap from to (or_else d e) = or_else (swap from to d) (swap from to e)

unfoldable pub combine_binary_expression : Option Lambda → Lambda → Bool → Lambda
combine_binary_expression none to_add true_and = to_add
combine_binary_expression (some expr) to_add true_and =
    let swapped = swap expr.parameter to_add.parameter expr.body in
    record to_add {
      body = if true_and then and_also swapped to_add.body else or_else swapped to_add.body;
    }
