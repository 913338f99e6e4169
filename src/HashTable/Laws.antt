-- ===== src/HashTable/Laws.antt =====
-- The hash sets of WebSharper.Main.js as finite collections, up to the equality that they are made with.
use odd_job.Prelude.{
  ℕ, ◌+◌, ◌-◌, ◌≡◌, refl, sym, ap, ◌∙◌, Bool, true, false, Option, some, List, [], ◌∷◌, ◌++◌, arith,
  length, length-append, ◌==◌, ==_iff, if◌then◌else◌, not, ◌&&◌, ◌||◌, Bool-cases, Option-cases,
  inl, inr,
}
use odd_job.HashTable.{
  Hashing, HashSet, bucket, concat, arr_contains, arr_remove, contains, add, remove, with_bucket,
}
use odd_job.HashTable.Buckets.{
  bucket-set_bucket, items_of, length-set_bucket, NoDuplicates, arr_contains-push,
  arr_contains-equal, arr_contains-remove, NoDuplicates-push, NoDuplicates-remove, arr_remove-found,
}

not_both : (b : Bool) → b ≡ false → b ≡ true → ⊥
not_both b f t = ground arith

module _ {ℓ} {A : Type ℓ} ⦃c : Hashing A⦄ where
  -- No bucket holds an item twice, and the count is the number of items.
  pub record IsValid (s : HashSet A) : Type ℓ where
    pub distinct : (h : ℕ) → NoDuplicates (items_of (bucket h s.data_of))
    pub counted : s.count ≡ length (concat s.data_of)

  -- A set contains what the bucket of the item's hash does.
  contains-bucket :
      (x : A) (s : HashSet A)
      → contains x s ≡ arr_contains x (items_of (bucket (c.hash x) s.data_of))
  unfolding contains arr_contains
  contains-bucket x s = ground arith

  arr_contains-if :
      (j : A) (b : Bool) (arr : List A) (o : Option (List A))
      → arr_contains j (items_of (if b then some arr else o))
        ≡ (if b then arr_contains j arr else arr_contains j (items_of o))
  arr_contains-if j true arr o = refl
  arr_contains-if j false arr o = refl

  pub contains-with_bucket :
      (j x : A) (arr : List A) (n : ℕ) (s : HashSet A)
      → contains j (with_bucket x arr n s)
        ≡ (if c.hash j == c.hash x then arr_contains j arr else contains j s)
  contains-with_bucket j x arr n s =
      rw
        (
          contains-bucket j (with_bucket x arr n s),
          bucket-set_bucket (c.hash j) (c.hash x) arr s.data_of,
          contains-bucket j s,
        )
        (arr_contains-if j (c.hash j == c.hash x) arr (bucket (c.hash j) s.data_of))

  abbrev pub bucket_of : A → HashSet A → List A
  bucket_of x s = items_of (bucket (c.hash x) s.data_of)

  -- Items of one hash are looked for in one bucket.
  contains-same_hash :
      (j x : A) (s : HashSet A)
      → c.hash j ≡ c.hash x
      → contains j s ≡ arr_contains j (bucket_of x s)
  contains-same_hash j x s e =
      contains-bucket j s ∙ ap (λ h. arr_contains j (items_of (bucket h s.data_of))) e

  add-cases :
      (x : A) (s : HashSet A)
      → add x s ≡ (
          if contains x s
          then (false, s)
          else (true, with_bucket x (bucket_of x s ++ x ∷ []) (s.count + 1) s))
  unfolding add contains
  add-cases x s = elim (Option-cases (bucket (c.hash x) s.data_of)) [
    | inl n ↦ rw (n, add, contains) refl
    | inr (arr, e) ↦ rw (e, add, contains) refl
  ]

  remove-cases :
      (x : A) (s : HashSet A)
      → remove x s ≡ (
          if contains x s
          then (true, with_bucket x (arr_remove x (bucket_of x s)).1 (s.count - 1) s)
          else (false, s))
  unfolding remove contains arr_contains
  remove-cases x s = elim (Option-cases (bucket (c.hash x) s.data_of)) [
    | inl n ↦ rw (n, remove, contains) refl
    | inr (arr, e) ↦ rw (e, remove, contains, (arr_remove-found x arr).0) refl
  ]

  with_bucket-IsValid :
      (x : A) (arr : List A) (n : ℕ) (s : HashSet A)
      → IsValid s
      → NoDuplicates arr
      → n + length (bucket_of x s) ≡ s.count + length arr
      → IsValid (with_bucket x arr n s)
  with_bucket-IsValid x arr n s v d e = record {
    distinct = λ h. rw (bucket-set_bucket h (c.hash x) arr s.data_of) (either h (h == c.hash x));
    counted = omega (arith, e, v.counted, length-set_bucket (c.hash x) arr s.data_of);
  }
    where
      either :
          (h : ℕ) (b : Bool) → NoDuplicates (items_of (if b then some arr else bucket h s.data_of))
      either h true = d
      either h false = v.distinct h

  contains-add : (j x : A) (s : HashSet A) → contains j (add x s).1 ≡ (contains j s || c.equals x j)
  contains-add j x s = elim (Bool-cases (contains x s)) [
    | inl t ↦
        rw (add-cases x s, t)
          (elim (Bool-cases (c.equals x j)) [
            | inl e ↦
                let there : contains j s ≡ true =
                  contains-same_hash j x s (sym (c.equals_hash x j e))
                  ∙ arr_contains-equal j x (bucket_of x s) e (sym (contains-bucket x s) ∙ t) in
                ground (arith, there)
            | inr f ↦ ground (arith, f)
          ])
    | inr f ↦
        rw (add-cases x s, f)
          (contains-with_bucket j x (bucket_of x s ++ x ∷ []) (s.count + 1) s
            ∙ elim (Bool-cases (c.hash j == c.hash x)) [
              | inl t ↦
                  let same = contains-same_hash j x s ((==_iff (c.hash j) (c.hash x)).0 t) in
                  rw (t, same) (arr_contains-push j x (bucket_of x s))
              | inr n ↦ rw n (ground (arith, n, c.equals_hash x j, (==_iff (c.hash j) (c.hash x))))
            ])
  ]

  -- `Add` keeps a valid set valid, says whether the item is new, and makes the count one more just
  -- then; the set then contains the items that are equal to it and those that it contained.
  pub add-IsValid :
      (x : A) (s : HashSet A)
      → IsValid s
      → IsValid (add x s).1
        × ((add x s).0 ≡ not (contains x s))
        × ((add x s).1.count ≡ s.count + (if contains x s then 0 else 1))
        × ((j : A) → contains j (add x s).1 ≡ (contains j s || c.equals x j))
  add-IsValid x s v = elim (Bool-cases (contains x s)) [
    | inl t ↦ (
      rw (add-cases x s, t) v,
      rw (add-cases x s, t) refl,
      rw (add-cases x s, t) (omega arith),
      λ j. contains-add j x s,
    )
    | inr f ↦
        let arr = bucket_of x s in
        let fresh : arr_contains x arr ≡ false = sym (contains-bucket x s) ∙ f in
        (
          rw (add-cases x s, f)
              (with_bucket-IsValid x (arr ++ x ∷ []) (s.count + 1) s v
                (NoDuplicates-push x arr (v.distinct (c.hash x)) fresh)
                (ground (arith, length-append arr (x ∷ [])))),
          rw (add-cases x s, f) refl,
          rw (add-cases x s, f) refl,
          λ j. contains-add j x s,
        )
  ]

  contains-remove :
      (j x : A) (s : HashSet A)
      → IsValid s
      → contains j (remove x s).1 ≡ (contains j s && not (c.equals x j))
  contains-remove j x s v = elim (Bool-cases (contains x s)) [
    | inl t ↦
        rw (remove-cases x s, t)
          (contains-with_bucket j x (arr_remove x (bucket_of x s)).1 (s.count - 1) s
            ∙ elim (Bool-cases (c.hash j == c.hash x)) [
              | inl e ↦
                  let same = contains-same_hash j x s ((==_iff (c.hash j) (c.hash x)).0 e) in
                  rw (e, same) (arr_contains-remove j x (bucket_of x s) (v.distinct (c.hash x)))
              | inr n ↦ rw n (ground (arith, n, c.equals_hash x j, (==_iff (c.hash j) (c.hash x))))
            ])
    | inr f ↦
        rw (remove-cases x s, f)
          (elim (Bool-cases (c.equals x j)) [
            | inl e ↦ rw e (elim (Bool-cases (contains j s)) [
              | inl t ↦ absurd (
                  not_both (contains x s) f (
                    contains-same_hash x j s (c.equals_hash x j e)
                    ∙ arr_contains-equal x j (bucket_of j s) (c.equals_symm x j e)
                        (sym (contains-bucket j s) ∙ t)))
              | inr n ↦ rw n refl
            ])
            | inr n ↦ rw n (ground arith)
          ])
  ]

  -- `Remove` keeps a valid set valid, says whether it contained the item, and makes the count one
  -- less just then; the set then contains what it contained but the items that are equal to it.
  pub remove-IsValid :
      (x : A) (s : HashSet A)
      → IsValid s
      → IsValid (remove x s).1
        × ((remove x s).0 ≡ contains x s)
        × ((remove x s).1.count ≡ s.count - (if contains x s then 1 else 0))
        × ((j : A) → contains j (remove x s).1 ≡ (contains j s && not (c.equals x j)))
  remove-IsValid x s v = elim (Bool-cases (contains x s)) [
    | inl t ↦
        let arr = bucket_of x s in
        let (found, fewer) = arr_remove-found x arr in
        let had : arr_contains x arr ≡ true = sym (contains-bucket x s) ∙ t in
        let one : length arr ≡ length (arr_remove x arr).1 + 1 = fewer ∙ rw (found, had) refl in
        let some_item = length-set_bucket (c.hash x) [] s.data_of in
        (
          rw (remove-cases x s, t)
              (with_bucket-IsValid x (arr_remove x arr).1 (s.count - 1) s v
                (NoDuplicates-remove x arr (v.distinct (c.hash x)))
                (omega (arith, one, some_item, v.counted))),
          rw (remove-cases x s, t) refl,
          rw (remove-cases x s, t) refl,
          λ j. contains-remove j x s v,
        )
    | inr f ↦ (
      rw (remove-cases x s, f) v,
      rw (remove-cases x s, f) refl,
      rw (remove-cases x s, f) (omega arith),
      λ j. contains-remove j x s v,
    )
  ]
