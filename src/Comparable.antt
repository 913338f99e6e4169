-- ===== src/Comparable.antt =====
-- `Unchecked.Compare` of GlutenFree.OddJob.Manager.Presentation.WS/Scripts/WebSharper/WebSharper.Main.js
-- as the collections use it: a sign for any two keys of one kind. -1, 0 and 1 are `lt`, `eq`, `gt`.
use Prim.Native.Nat.{Ordering}
use Prim.Native.Nat.Ordering.{lt, eq, gt}
use odd_job.Prelude.{ℕ, ◌≡◌, refl, arith, ltb, ◌==◌, if◌then◌else◌, ◌⊎◌, inl, inr}

-- To split on a comparison and keep the equation.
pub Ordering-cases : (d : Ordering) → (d ≡ lt) ⊎ ((d ≡ eq) ⊎ (d ≡ gt))
Ordering-cases lt = inl refl
Ordering-cases eq = inr (inl refl)
Ordering-cases gt = inr (inr refl)

-- Keys are compared by a weak order: two pairs of a map with one key compare equal.
pub record IsWeakOrder {ℓ} {K : Type ℓ} (cmp : K → K → Ordering) : Type ℓ where
  pub cmp_refl : (a : K) → cmp a a ≡ eq
  pub lt_of_gt : (a b : K) → cmp a b ≡ gt → cmp b a ≡ lt
  pub gt_of_lt : (a b : K) → cmp a b ≡ lt → cmp b a ≡ gt
  pub eq_symm : (a b : K) → cmp a b ≡ eq → cmp b a ≡ eq
  pub lt_trans : (a b c : K) → cmp a b ≡ lt → cmp b c ≡ lt → cmp a c ≡ lt
  pub eq_trans : (a b c : K) → cmp a b ≡ eq → cmp b c ≡ eq → cmp a c ≡ eq
  pub lt_eq_trans : (a b c : K) → cmp a b ≡ lt → cmp b c ≡ eq → cmp a c ≡ lt
  pub eq_lt_trans : (a b c : K) → cmp a b ≡ eq → cmp b c ≡ lt → cmp a c ≡ lt

pub record Comparable {ℓ} (K : Type ℓ) : Type ℓ where
  pub cmp : K → K → Ordering
  pub weak : IsWeakOrder cmp
  pub open weak use *

-- `Compare` at two numbers, `a===b` first, then `a<b`.
unfoldable pub compare_numbers : ℕ → ℕ → Ordering
compare_numbers a b = if a == b then eq else if ltb a b then lt else gt

pub compare_numbers-IsWeakOrder : IsWeakOrder compare_numbers
unfolding compare_numbers
compare_numbers-IsWeakOrder = ground arith

instance unfoldable pub number : Comparable ℕ
number = record { cmp = compare_numbers; weak = compare_numbers-IsWeakOrder }

-- `Collections.Pair`: a map's entry, compared by its key alone.
pub record Pair {ℓ κ} (K : Type ℓ) (V : Type κ) : Type (ℓ ⊔ κ) where
  pub key : K
  pub value : V

module _ {ℓ κ} {K : Type ℓ} {V : Type κ} ⦃o : Comparable K⦄ where
  unfoldable pub compare_keys : Pair K V → Pair K V → Ordering
  compare_keys p q = o.cmp p.key q.key

  pub compare_keys-IsWeakOrder : IsWeakOrder compare_keys
  unfolding compare_keys
  compare_keys-IsWeakOrder = record {
    cmp_refl = λ a. o.cmp_refl a.key;
    lt_of_gt = λ a b. o.lt_of_gt a.key b.key;
    gt_of_lt = λ a b. o.gt_of_lt a.key b.key;
    eq_symm = λ a b. o.eq_symm a.key b.key;
    lt_trans = λ a b c. o.lt_trans a.key b.key c.key;
    eq_trans = λ a b c. o.eq_trans a.key b.key c.key;
    lt_eq_trans = λ a b c. o.lt_eq_trans a.key b.key c.key;
    eq_lt_trans = λ a b c. o.eq_lt_trans a.key b.key c.key;
  }

  instance unfoldable pub pair : Comparable (Pair K V)
  unfolding compare_keys
  pair = record { cmp = compare_keys; weak = compare_keys-IsWeakOrder }
