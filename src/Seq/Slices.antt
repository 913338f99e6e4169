-- ===== src/Seq/Slices.antt =====
-- The functions of WebSharper.Main.js from sequences to sequences. A sequence that throws while it
-- is read is `none`.
use odd_job.Prelude.{
  ℕ, zero, suc, ◌+◌, Bool, Option, none, some, List, [], ◌∷◌, ◌++◌, map, ltb, ◌==◌, if◌then◌else◌,
  ◌>>=◌, length,
}

module _ {ℓ} {A : Type ℓ} where
  -- The inner `while(loop)` of `filter` skips to the next item that passes.
  unfoldable pub filter_seq : (A → Bool) → List A → List A
  filter_seq f [] = []
  filter_seq f (c ∷ s) = let rest = filter_seq f s in if f c then c ∷ rest else rest

  -- `Arrays.partition`
  unfoldable pub partition_from : (A → Bool) → List A → List A → List A → List A × List A
  partition_from f ret1 ret2 [] = (ret1, ret2)
  partition_from f ret1 ret2 (x ∷ arr) =
      partition_from f (if f x then ret1 ++ x ∷ [] else ret1) (if f x then ret2 else ret2 ++ x ∷ [])
        arr

  unfoldable pub partition : (A → Bool) → List A → List A × List A
  partition f arr = partition_from f [] [] arr

  unfoldable pub mapi_from {κ} : {B : Type κ} → ℕ → (ℕ → A → B) → List A → List B
  mapi_from i f [] = []
  mapi_from i f (x ∷ s) = f i x ∷ mapi_from (i + 1) f s

  unfoldable pub mapi {κ} : {B : Type κ} → (ℕ → A → B) → List A → List B
  mapi f s = mapi_from 0 f s

  unfoldable pub concat : List (List A) → List A
  concat [] = []
  concat (s ∷ ss) = s ++ concat ss

  unfoldable pub collect {κ} : {B : Type κ} → (B → List A) → List B → List A
  collect f s = concat (map f s)

  -- `choose` by way of `collect`, with a list of at most one item for each.
  abbrev pub option_list : Option A → List A
  option_list none = []
  option_list (some x) = x ∷ []

  unfoldable pub choose {κ} : {B : Type κ} → (B → Option A) → List B → List A
  choose f s = collect (λ x. option_list (f x)) s

  -- `e.s` says whether the seed was given; `c` is the last item given.
  unfoldable pub scan_from {κ} : {B : Type κ} → (B → A → B) → B → List A → List B
  scan_from f c [] = []
  scan_from f c (x ∷ s) = f c x ∷ scan_from f (f c x) s

  unfoldable pub scan {κ} : {B : Type κ} → (B → A → B) → B → List A → List B
  scan f x s = x ∷ scan_from f x s

  -- `o.s` counts the items asked for: past `n` the end, and no item before it throws.
  unfoldable pub take_from : ℕ → ℕ → List A → Option (List A)
  take_from o n [] = if ltb n (o + 1) then some [] else none
  take_from o n (x ∷ s) =
      let rest = take_from (o + 1) n s >>= λ r. some (x ∷ r) in
      if ltb n (o + 1) then some [] else rest

  unfoldable pub take_seq : ℕ → List A → Option (List A)
  take_seq n s = take_from 0 n s

  unfoldable pub skip_seq : ℕ → List A → Option (List A)
  skip_seq zero s = some s
  skip_seq (suc n) [] = none
  skip_seq (suc n) (x ∷ s) = skip_seq n s

  -- `while(go)`, at its first reading.
  unfoldable pub skip_while : (A → Bool) → List A → List A
  skip_while f [] = []
  skip_while f (x ∷ s) = let rest = skip_while f s in if f x then rest else x ∷ s

  unfoldable pub take_while : (A → Bool) → List A → List A
  take_while f [] = []
  take_while f (x ∷ s) = let rest = take_while f s in if f x then x ∷ rest else []

  -- `enumWhile(MoveNext && i < n)`
  unfoldable pub truncate_from : ℕ → ℕ → List A → List A
  truncate_from i n [] = []
  truncate_from i n (x ∷ s) =
      let rest = truncate_from (i + 1) n s in if ltb i n then x ∷ rest else []

  unfoldable pub truncate : ℕ → List A → List A
  truncate n s = truncate_from 0 n s

  -- `q` fills up to the window's size.
  unfoldable pub fill : ℕ → List A → List A → List A × List A
  fill size q [] = (q, [])
  fill size q (x ∷ s) =
      let more = fill size (q ++ x ∷ []) s in if ltb (length q) size then more else (q, x ∷ s)

  abbrev pub shift : List A → List A
  shift [] = []
  shift (_ ∷ q) = q

  -- Then each item that comes pushes the first out.
  unfoldable pub slide : List A → List A → List (List A)
  slide q [] = []
  slide q (x ∷ s) = let q' = shift q ++ x ∷ [] in q' ∷ slide (shift q ++ x ∷ []) s

  -- A size of 0 throws.
  unfoldable pub windowed : ℕ → List A → Option (List (List A))
  windowed zero s = none
  windowed (suc n) s =
      let (q, rest) = fill (suc n) [] s in some (if length q == suc n then q ∷ slide q rest else [])

  -- `Seq.distinctBy` is in SortedList.Laws; `Arrays.foldBack`:
  unfoldable pub fold_back {κ} : {S : Type κ} → (A → S → S) → List A → S → S
  fold_back f [] s = s
  fold_back f (x ∷ arr) s = f x (fold_back f arr s)

module _ {ℓ κ} {A : Type ℓ} {B : Type κ} where
  unfoldable pub map2 {μ} : {C : Type μ} → (A → B → C) → List A → List B → List C
  map2 f [] s2 = []
  map2 f (x ∷ s1) [] = []
  map2 f (x ∷ s1) (y ∷ s2) = f x y ∷ map2 f s1 s2

  unfoldable pub zip : List A → List B → List (A × B)
  zip s1 s2 = map2 (λ x y. (x, y)) s1 s2

  -- `Seq.allPairs`
  unfoldable pub all_pairs : List A → List B → List (A × B)
  all_pairs s1 s2 = collect (λ x. map (λ y. (x, y)) s2) s1

-- `Seq.init`: the first `n` of an infinite sequence.
unfoldable pub init_from {ℓ} : {A : Type ℓ} → ℕ → ℕ → (ℕ → A) → List A
init_from i zero f = []
init_from i (suc n) f = f i ∷ init_from (i + 1) n f

unfoldable pub init {ℓ} : {A : Type ℓ} → ℕ → (ℕ → A) → List A
init n f = init_from 0 n f
