-- ===== src/SqlStore/Tables.antt =====
-- Tables as lists of rows, for BaseSqlJobQueueManager.cs: what filters, updates and their tests keep.
use odd_job.Prelude.{
  ℕ, zero, suc, ◌≡◌, refl, sym, ap, subst, ◌∙◌, ◌⊎◌, inl, inr, Bool, true, false, Option, none,
  some, List, [], ◌∷◌, map, take, arith, if◌then◌else◌, ◌||◌, Bool-cases, get_elem?,
}
use odd_job.SortedList.{All, All-imp}
use odd_job.Seq.Loops.{exists}
use odd_job.Seq.Searches.{exists-cons, exists-nil}
use odd_job.Seq.Slices.{filter_seq}
use odd_job.SqlStore.{Row, update}

-- The rows have different ids.
abbrev pub UniqueIds : List Row → Type 0
UniqueIds rows =
    (i j : ℕ) (r s : Row)
    → get_elem? rows i ≡ some r
    → get_elem? rows j ≡ some s
    → r.id ≡ s.id
    → i ≡ j

pub or_parts : (a b : Bool) → (a || b) ≡ true → (a ≡ true) ⊎ (b ≡ true)
or_parts true b h = inl refl
or_parts false b h = inr h

module _ {A : Type 0} where
  pub All-take : (P : A → Type 0) (n : ℕ) (xs : List A) → All P xs → All P (take n xs)
  All-take P zero xs a = tt
  All-take P (suc n) [] a = tt
  All-take P (suc n) (x ∷ xs) a = (a.0, All-take P n xs a.1)

  pub exists-All :
      (p : A → Bool) (P : A → Type 0) (xs : List A)
      → exists p xs ≡ true
      → All P xs
      → (x : A) × (p x ≡ true) × P x
  exists-All p P [] h a = absurd (ground (arith, exists-nil p, h))
  exists-All p P (x ∷ xs) h a = elim (or_parts (p x) _ (sym (exists-cons p x xs) ∙ h)) [
    | inl e ↦ (x, e, a.0)
    | inr e ↦ exists-All p P xs e a.1
  ]

-- A row of a table, at some place.
abbrev pub InTable : Row → List Row → Type 0
InTable r rows = (i : ℕ) × (get_elem? rows i ≡ some r)

pub All-filter_seq :
    (p : Row → Bool) (rows : List Row)
    → All (λ r. InTable r rows × (p r ≡ true)) (filter_seq p rows)
unfolding filter_seq
All-filter_seq p [] = tt
All-filter_seq p (r ∷ rows) =
    let rest =
      All-imp (λ s (m, h). ((suc m.0, m.1), h)) (filter_seq p rows) (All-filter_seq p rows) in
    elim (Bool-cases (p r)) [
      | inl t ↦ rw (t, filter_seq) (((0, refl), t), rest)
      | inr f ↦ rw (f, filter_seq) rest
    ]

pub All-map :
    {A : Type 0} (P : A → Type 0) (f : Row → A) (rows : List Row)
    → All (λ r. P (f r)) rows
    → All P (map f rows)
All-map P f [] a = tt
All-map P f (r ∷ rows) a = (a.0, All-map P f rows a.1)

pub some-injective : (r s : Row) → some r ≡ some s → r ≡ s
some-injective r s e = ap (or_else r) e
  where
    or_else : Row → Option Row → Row
    or_else d none = d
    or_else d (some x) = x

pub same_row :
    (rows : List Row) (r s : Row)
    → UniqueIds rows
    → InTable r rows
    → InTable s rows
    → r.id ≡ s.id
    → r ≡ s
same_row rows r s unique (i, e) (j, f) same =
    let k : i ≡ j = unique i j r s e f same in
    some-injective r s (sym (subst (λ n. get_elem? rows n ≡ some r) k e) ∙ f)

-- An update keeps the places of the rows.
pub get_elem?-update :
    (p : Row → Bool) (f : Row → Row) (rows : List Row) (i : ℕ) (r : Row)
    → get_elem? rows i ≡ some r
    → get_elem? (update p f rows) i ≡ some (if p r then f r else r)
unfolding update
get_elem?-update p f [] i r e = ground arith
get_elem?-update p f (s ∷ rows) zero r e =
    ap (λ x. some (if p x then f x else x)) (some-injective s r e)
get_elem?-update p f (s ∷ rows) (suc i) r e = get_elem?-update p f rows i r e

pub update-get_elem? :
    (p : Row → Bool) (f : Row → Row) (rows : List Row) (i : ℕ) (s : Row)
    → get_elem? (update p f rows) i ≡ some s
    → (r : Row) × (get_elem? rows i ≡ some r) × (s ≡ (if p r then f r else r))
unfolding update
update-get_elem? p f [] i s e = absurd (ground arith)
update-get_elem? p f (r ∷ rows) zero s e = (r, refl, sym (some-injective _ s e))
update-get_elem? p f (r ∷ rows) (suc i) s e = update-get_elem? p f rows i s e

pub UniqueIds-update :
    (p : Row → Bool) (f : Row → Row) (rows : List Row)
    → ((r : Row) → (f r).id ≡ r.id)
    → UniqueIds rows
    → UniqueIds (update p f rows)
UniqueIds-update p f rows keeps unique i j r s e g same =
    let (r', e', a) = update-get_elem? p f rows i r e in
    let (s', g', b) = update-get_elem? p f rows j s g in
    unique i j r' s' e' g' (sym (kept r r' a) ∙ same ∙ kept s s' b)
  where
    same_id : (y : Row) (b : Bool) → (if b then f y else y).id ≡ y.id
    same_id y true = keeps y
    same_id y false = refl

    kept : (x y : Row) → x ≡ (if p y then f y else y) → x.id ≡ y.id
    kept x y h = ap (λ z. z.id) h ∙ same_id y (p y)

pub All-get :
    (P : Row → Type 0) (rows : List Row) (i : ℕ) (r : Row)
    → All P rows
    → get_elem? rows i ≡ some r
    → P r
All-get P [] i r a e = absurd (ground arith)
All-get P (s ∷ rows) zero r a e = subst P (some-injective s r e) a.0
All-get P (s ∷ rows) (suc i) r a e = All-get P rows i r a.1 e

pub not_both : (b : Bool) → b ≡ false → b ≡ true → ⊥
not_both b f t = ground arith
