-- ===== src/SqlQueue/Filters.antt =====
-- Filters and updates of tables that grow at their end, for BaseSqlJobQueueAdder.cs.
use odd_job.Prelude.{
  ◌≡◌, refl, sym, ap, inl, inr, ◌∙◌, Bool, true, false, List, [], ◌∷◌, ◌++◌, arith, Bool-cases,
}
use mathlib.Core.List.{Memᴰ}
use mathlib.Core.List.Memᴰ
use odd_job.Seq.Loops.{exists}
use odd_job.Seq.Searches.{exists-cons, exists-nil}
use odd_job.Seq.Slices.{filter_seq}
use odd_job.SqlStore.{update}

module _ {ℓ} {A : Type ℓ} (p : A → Bool) where
  pub filter_seq-append :
      (xs ys : List A) → filter_seq p (xs ++ ys) ≡ filter_seq p xs ++ filter_seq p ys
  unfolding filter_seq
  filter_seq-append [] ys = refl
  filter_seq-append (x ∷ xs) ys = elim (Bool-cases (p x)) [
    | inl t ↦ rw t (ap (λ r. x ∷ r) (filter_seq-append xs ys))
    | inr f ↦ rw f (filter_seq-append xs ys)
  ]

  pub filter_seq-none : (xs : List A) → ((x : A) → Memᴰ x xs → p x ≡ false) → filter_seq p xs ≡ []
  unfolding filter_seq
  filter_seq-none [] fails = refl
  filter_seq-none (x ∷ xs) fails =
      rw (fails x (Memᴰ.head refl)) (filter_seq-none xs (λ y m. fails y (Memᴰ.tail m)))

  pub filter_seq-all : (xs : List A) → ((x : A) → Memᴰ x xs → p x ≡ true) → filter_seq p xs ≡ xs
  unfolding filter_seq
  filter_seq-all [] passes = refl
  filter_seq-all (x ∷ xs) passes =
      rw (passes x (Memᴰ.head refl))
        (ap (λ r. x ∷ r) (filter_seq-all xs (λ y m. passes y (Memᴰ.tail m))))

  -- What is appended to a table in which nothing passes is what passes.
  pub filter_seq-appended :
      (xs ys : List A)
      → ((x : A) → Memᴰ x xs → p x ≡ false)
      → ((y : A) → Memᴰ y ys → p y ≡ true)
      → filter_seq p (xs ++ ys) ≡ ys
  filter_seq-appended xs ys fails passes =
      filter_seq-append xs ys
      ∙ ap (λ l. l ++ filter_seq p ys) (filter_seq-none xs fails)
      ∙ filter_seq-all ys passes

  pub exists-none : (xs : List A) → ((x : A) → Memᴰ x xs → p x ≡ false) → exists p xs ≡ false
  exists-none [] fails = exists-nil p
  exists-none (x ∷ xs) fails =
      exists-cons p x xs
      ∙ rw (fails x (Memᴰ.head refl)) (exists-none xs (λ y m. fails y (Memᴰ.tail m)))

  pub mem-exists : (x : A) (xs : List A) → Memᴰ x xs → p x ≡ true → exists p xs ≡ true
  mem-exists x [] m h = absurd (Memᴰ.not-nil m)
  mem-exists x (y ∷ xs) m h = elim (Memᴰ.cases_cons m) [
    | inl e ↦ exists-cons p y xs ∙ rw (sym (ap p e) ∙ h) refl
    | inr n ↦ let rest = mem-exists x xs n h in ground (arith, exists-cons p y xs, rest)
  ]

  pub update-appended :
      (f : A → A) (xs : List A) (y : A)
      → ((x : A) → Memᴰ x xs → p x ≡ false)
      → p y ≡ true
      → update p f (xs ++ y ∷ []) ≡ xs ++ f y ∷ []
  unfolding update
  update-appended f [] y fails h = rw h refl
  update-appended f (x ∷ xs) y fails h =
      rw (fails x (Memᴰ.head refl))
        (ap (λ r. x ∷ r) (update-appended f xs y (λ z m. fails z (Memᴰ.tail m)) h))
