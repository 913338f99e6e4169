-- ===== src/HashTable/Buckets.antt =====
-- The arrays and buckets of the hash sets of WebSharper.Main.js.
use odd_job.Prelude.{
  ℕ, ◌+◌, ◌≡◌, refl, true, false, Option, none, some, List, [], ◌∷◌, ◌++◌, arith, length,
  length-append, ◌==◌, if◌then◌else◌, not, ◌&&◌, ◌||◌, inl, inr,
}
use Prim.Native.Nat.{compare}
use odd_job.Comparable.{Ordering-cases}
use odd_job.SortedList.{All}
use odd_job.HashTable.{Hashing, bucket, set_bucket, concat, arr_contains, arr_remove}

module _ {ℓ} {A : Type ℓ} where
  pub bucket-set_bucket :
      (i h : ℕ) (arr : List A) (d : List (ℕ × List A))
      → bucket i (set_bucket h arr d) ≡ (if i == h then some arr else bucket i d)
  bucket-set_bucket i h arr [] = ground arith
  bucket-set_bucket i h arr ((k, old) ∷ rest) = ground (arith, bucket-set_bucket i h arr rest)

  abbrev pub items_of : Option (List A) → List A
  items_of none = []
  items_of (some arr) = arr

  pub length-set_bucket :
      (h : ℕ) (arr : List A) (d : List (ℕ × List A))
      → length (concat (set_bucket h arr d)) + length (items_of (bucket h d))
        ≡ length (concat d) + length arr
  unfolding concat
  length-set_bucket h arr [] = ground (arith, length-append arr [])
  length-set_bucket h arr ((k, old) ∷ rest) = elim (Ordering-cases (compare h k)) [
    | inl l ↦ rw (l, set_bucket, bucket) (ground (arith, length-append arr (old ++ concat rest)))
    | inr (inl e) ↦
        rw (e, set_bucket, bucket)
          (ground (arith, length-append arr (concat rest), length-append old (concat rest)))
    | inr (inr g) ↦
        rw (g, set_bucket, bucket)
          (ground (
            arith,
            length-append old (concat (set_bucket h arr rest)),
            length-append old (concat rest),
            length-set_bucket h arr rest,
          ))
  ]

module _ {ℓ} {A : Type ℓ} ⦃c : Hashing A⦄ where
  abbrev pub Differ : A → List A → Type 0
  Differ x xs = All (λ y. c.equals x y ≡ false) xs

  abbrev pub NoDuplicates : List A → Type 0
  NoDuplicates [] = Unit
  NoDuplicates (x ∷ xs) = Differ x xs × NoDuplicates xs

  pub arr_contains-push :
      (j x : A) (arr : List A)
      → arr_contains j (arr ++ x ∷ []) ≡ (arr_contains j arr || c.equals x j)
  unfolding arr_contains
  arr_contains-push j x [] = ground arith
  arr_contains-push j x (y ∷ arr) = ground (arith, arr_contains-push j x arr)

  -- An array that contains an item contains those equal to it.
  pub arr_contains-equal :
      (j x : A) (arr : List A)
      → c.equals x j ≡ true
      → arr_contains x arr ≡ true
      → arr_contains j arr ≡ true
  unfolding arr_contains
  arr_contains-equal j x [] e h = ground arith
  arr_contains-equal j x (y ∷ arr) e h =
      ground (arith, arr_contains-equal j x arr e, c.equals_trans y x j)

  Differ-not_contains :
      (x j : A) (arr : List A) → Differ x arr → c.equals x j ≡ true → arr_contains j arr ≡ false
  unfolding arr_contains
  Differ-not_contains x j [] d e = refl
  Differ-not_contains x j (y ∷ arr) d e =
      ground (arith, Differ-not_contains x j arr d.1 e, c.equals_symm y j, c.equals_trans x j y)

  pub arr_contains-remove :
      (j x : A) (arr : List A)
      → NoDuplicates arr
      → arr_contains j (arr_remove x arr).1 ≡ (arr_contains j arr && not (c.equals x j))
  unfolding arr_contains arr_remove
  arr_contains-remove j x [] n = refl
  arr_contains-remove j x (y ∷ arr) n = ground (
    arith,
    arr_contains-remove j x arr n.1,
    Differ-not_contains y j arr n.0,
    c.equals_symm y x,
    c.equals_trans y x j,
    c.equals_trans x y j,
    c.equals_symm x j,
    c.equals_trans y j x,
  )

  Differ-push :
      (y x : A) (arr : List A) → Differ y arr → c.equals y x ≡ false → Differ y (arr ++ x ∷ [])
  Differ-push y x [] d e = (e, tt)
  Differ-push y x (z ∷ arr) d e = (d.0, Differ-push y x arr d.1 e)

  pub NoDuplicates-push :
      (x : A) (arr : List A)
      → NoDuplicates arr
      → arr_contains x arr ≡ false
      → NoDuplicates (arr ++ x ∷ [])
  unfolding arr_contains
  NoDuplicates-push x [] n h = (tt, tt)
  NoDuplicates-push x (y ∷ arr) n h =
      ground (arith, NoDuplicates-push x arr n.1, Differ-push y x arr n.0)

  Differ-remove : (y x : A) (arr : List A) → Differ y arr → Differ y (arr_remove x arr).1
  unfolding arr_remove
  Differ-remove y x [] d = tt
  Differ-remove y x (z ∷ arr) d = ground (arith, Differ-remove y x arr d.1)

  pub NoDuplicates-remove :
      (x : A) (arr : List A) → NoDuplicates arr → NoDuplicates (arr_remove x arr).1
  unfolding arr_remove
  NoDuplicates-remove x [] n = tt
  NoDuplicates-remove x (y ∷ arr) n =
      ground (arith, NoDuplicates-remove x arr n.1, Differ-remove y x arr n.0)

  -- One item is found or none, and it is gone.
  pub arr_remove-found :
      (x : A) (arr : List A)
      → ((arr_remove x arr).0 ≡ arr_contains x arr)
        × (length arr ≡ length (arr_remove x arr).1 + (if (arr_remove x arr).0 then 1 else 0))
  unfolding arr_contains arr_remove
  arr_remove-found x [] = (refl, refl)
  arr_remove-found x (y ∷ arr) = ground (arith, arr_remove-found x arr)
