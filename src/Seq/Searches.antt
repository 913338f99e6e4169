-- ===== src/Seq/Searches.antt =====
-- What the searches of WebSharper.Main.js find: the first item of a sequence that passes a test.
use odd_job.Prelude.{
  ℕ, zero, suc, ◌+◌, ◌≡◌, refl, sym, ap, ◌∙◌, ◌↔◌, Bool, true, false, Option, none, some, List, [],
  ◌∷◌, arith, not, ◌&&◌, ◌||◌, if◌then◌else◌, ◌>>=◌, get_elem?, take, Bool-cases, inl, inr,
}
use odd_job.SortedList.{All}
use odd_job.Seq.Loops.{
  exists, exists_from, forall, nth, nth_from, try_find, try_find_from, try_find_index,
  try_find_index_from,
}

abbrev add_to : ℕ → Option ℕ → Option ℕ
add_to i none = none
add_to i (some j) = some (i + j)

add_to-add_to : (i j : ℕ) (r : Option ℕ) → add_to (i + j) r ≡ add_to i (add_to j r)
add_to-add_to i j none = refl
add_to-add_to i j (some k) = ground arith

and_parts : (a b : Bool) → (a && b) ≡ true → (a ≡ true) × (b ≡ true)
and_parts true true e = (refl, refl)
and_parts true false e = absurd (ground arith)
and_parts false b e = absurd (ground arith)

module _ {ℓ} {A : Type ℓ} where
  nth_from-before :
      (pos n i : ℕ) (cur : Option A) (s : List A)
      → n ≡ pos + i
      → nth_from pos n cur s ≡ get_elem? s i
  unfolding nth_from
  nth_from-before pos n i cur [] e = ground arith
  nth_from-before pos n zero cur (x ∷ []) e = ground arith
  nth_from-before pos n zero cur (x ∷ y ∷ s) e = ground arith
  nth_from-before pos n (suc i) cur (x ∷ s) e =
      ground (arith, nth_from-before (pos + 1) n i (some x) s (omega arith))

  -- `nth` gives the item at the index, and throws exactly when the sequence has none there.
  pub nth_lem : (i : ℕ) (s : List A) → nth i s ≡ get_elem? s i
  unfolding nth
  nth_lem i s = nth_from-before 0 i i none s (omega arith)

  -- Where the first item that passes stands.
  pub record IsFirstAt (ok : A → Bool) (s : List A) (i : ℕ) : Type ℓ where
    pub item : A
    pub there : get_elem? s i ≡ some item
    pub passes : ok item ≡ true
    pub before : All (λ x. ok x ≡ false) (take i s)

  pub record AllFail (ok : A → Bool) (s : List A) : Type ℓ where
    pub fails : All (λ x. ok x ≡ false) s

  -- No index, where every item fails.
  abbrev pub FoundAt : (A → Bool) → List A → Option ℕ → Type ℓ
  FoundAt ok s none = AllFail ok s
  FoundAt ok s (some i) = IsFirstAt ok s i

  FoundAt-cons :
      (ok : A → Bool) (x : A) (s : List A) (r : Option ℕ)
      → ok x ≡ false
      → FoundAt ok s r
      → FoundAt ok (x ∷ s) (add_to 1 r)
  FoundAt-cons ok x s none h f = record { fails = (h, f.fails) }
  FoundAt-cons ok x s (some i) h f = record {
    item = f.item;
    there = rw (next i) f.there;
    passes = f.passes;
    before = rw (next i) (h, f.before);
  }
    where
      next : (i : ℕ) → 1 + i ≡ suc i
      next i = omega arith

  try_find_index_from-shift :
      (i : ℕ) (ok : A → Bool) (s : List A)
      → try_find_index_from true i ok s ≡ add_to i (try_find_index_from true 0 ok s)
  unfolding try_find_index_from
  try_find_index_from-shift i ok [] = refl
  try_find_index_from-shift i ok (x ∷ s) = elim (Bool-cases (ok x)) [
    | inl t ↦ rw (t, try_find_index_from, not, add_to) (ground arith)
    | inr f ↦
        rw (f, try_find_index_from, not)
          (try_find_index_from-shift (i + 1) ok s
            ∙ add_to-add_to i 1 (try_find_index_from true 0 ok s)
            ∙ ap (add_to i) (sym (try_find_index_from-shift 1 ok s)))
  ]

  try_find_index-cons :
      (ok : A → Bool) (x : A) (s : List A)
      → try_find_index ok (x ∷ s) ≡ (if ok x then some 0 else add_to 1 (try_find_index ok s))
  unfolding try_find_index try_find_index_from
  try_find_index-cons ok x s = elim (Bool-cases (ok x)) [
    | inl t ↦ rw (t, try_find_index_from, not) refl
    | inr f ↦ rw (f, try_find_index_from, not) (try_find_index_from-shift 1 ok s)
  ]

  -- `tryFindIndex` gives the least index whose item passes, and nothing where every item fails.
  pub try_find_index_lem : (ok : A → Bool) (s : List A) → FoundAt ok s (try_find_index ok s)
  unfolding try_find_index try_find_index_from
  try_find_index_lem ok [] = record { fails = tt }
  try_find_index_lem ok (x ∷ s) = elim (Bool-cases (ok x)) [
    | inl t ↦
        rw (try_find_index-cons ok x s, t)
          (record { item = x; there = refl; passes = t; before = tt })
    | inr f ↦
        rw (try_find_index-cons ok x s, f)
          (FoundAt-cons ok x s (try_find_index ok s) f (try_find_index_lem ok s))
  ]

  -- `tryFind` gives the item at the index that `tryFindIndex` gives.
  pub try_find_lem :
      (ok : A → Bool) (s : List A) → try_find ok s ≡ (try_find_index ok s >>= λ i. get_elem? s i)
  unfolding try_find try_find_from try_find_index try_find_index_from
  try_find_lem ok [] = refl
  try_find_lem ok (x ∷ s) = elim (Bool-cases (ok x)) [
    | inl t ↦ rw (t, try_find, try_find_from, try_find_index, try_find_index_from) refl
    | inr f ↦
        rw
          (
            f,
            try_find,
            try_find_from,
            try_find_index,
            try_find_index_from,
            try_find_index_from-shift 1 ok s,
          )
          (try_find_lem ok s ∙ shifted (try_find_index ok s))
  ]
    where
      shifted :
          (r : Option ℕ) → (r >>= λ i. get_elem? s i) ≡ (add_to 1 r >>= λ i. get_elem? (x ∷ s) i)
      shifted none = refl
      shifted (some i) = let e : 1 + i ≡ suc i = omega arith in rw e refl

  exists_from-true : (p : A → Bool) (s : List A) → exists_from true p s ≡ true
  unfolding exists_from
  exists_from-true p s = refl

  pub exists-nil : (p : A → Bool) → exists p [] ≡ false
  unfolding exists exists_from
  exists-nil p = refl

  pub exists-cons : (p : A → Bool) (x : A) (s : List A) → exists p (x ∷ s) ≡ (p x || exists p s)
  unfolding exists exists_from
  exists-cons p x s = elim (Bool-cases (p x)) [
    | inl t ↦ rw (t, exists, exists_from) refl
    | inr f ↦ rw (f, exists, exists_from) refl
  ]

  pub forall-cons : (p : A → Bool) (x : A) (s : List A) → forall p (x ∷ s) ≡ (p x && forall p s)
  unfolding forall exists exists_from
  forall-cons p x s = elim (Bool-cases (p x)) [
    | inl t ↦ rw (t, forall, exists, exists_from, not) refl
    | inr f ↦ rw (f, forall, exists, exists_from, not) refl
  ]

  -- `forall` holds exactly if every item passes.
  pub forall_iff : (p : A → Bool) (s : List A) → (forall p s ≡ true) ↔ All (λ x. p x ≡ true) s
  unfolding forall exists exists_from
  forall_iff p [] = (λ _. tt, λ _. refl)
  forall_iff p (x ∷ s) = rw (forall-cons p x s) (
    λ h. let (l, r) = and_parts (p x) (forall p s) h in (l, (forall_iff p s).0 r),
    λ h. rw (h.0, (forall_iff p s).1 h.1) refl,
  )
