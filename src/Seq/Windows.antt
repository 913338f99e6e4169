-- ===== src/Seq/Windows.antt =====
-- The windows of WebSharper.Main.js: every run of items of one length.
use odd_job.Prelude.{
  ℕ, suc, ◌<◌, ◌≤◌, ◌≡◌, refl, sym, ap, ◌∙◌, true, false, none, some, List, [], ◌∷◌, ◌++◌, arith,
  ltb, leb, leb-false, length-take, take-all, drop-all, take-append, drop-append, take-append-drop,
  Bool-cases, ◌==◌, if◌then◌else◌, length, take, drop, length-append, append_assoc, append-nil, inl,
  inr,
}
use odd_job.Seq.Slices.{windowed, fill, slide}

module _ {ℓ} {A : Type ℓ} where
  -- The runs of `n` items, from each place where one starts.
  unfoldable pub runs : ℕ → List A → List (List A)
  runs n [] = []
  runs n (x ∷ s) =
      let rest = runs n s in if leb n (length (x ∷ s)) then take n (x ∷ s) ∷ rest else []

  runs-short : (n : ℕ) (s : List A) → length s < n → runs n s ≡ []
  unfolding runs
  runs-short n [] h = refl
  runs-short n (x ∷ s) h = ground arith

  -- The first run, and those from the next place.
  runs-first :
      (x : A) (q s : List A)
      → runs (length (x ∷ q)) (x ∷ q ++ s) ≡ (x ∷ q) ∷ runs (length (x ∷ q)) (q ++ s)
  unfolding runs
  runs-first x q s =
      let e : leb (length (x ∷ q)) (length (x ∷ q ++ s)) ≡ true =
        ground (arith, length-append q s) in
      rw (e, take-append q s) refl

  -- A full window slides over what is left.
  slide_lem : (n : ℕ) (q s : List A) → length q ≡ suc n → q ∷ slide q s ≡ runs (suc n) (q ++ s)
  unfolding slide
  slide_lem n [] s e = ground arith
  slide_lem n (x ∷ q) [] e = sym (
      rw (← e)
        (runs-first x q [] ∙ rw (append-nil q, runs-short (length (x ∷ q)) q (omega arith)) refl))
  slide_lem n (x ∷ q) (y ∷ s) e =
      let next = slide_lem n (q ++ y ∷ []) s (ground (arith, length-append q (y ∷ []))) in
      let joined : (q ++ y ∷ []) ++ s ≡ q ++ y ∷ s = append_assoc q (y ∷ []) s in
      ap (λ r. (x ∷ q) ∷ r) (next ∙ ap (runs (suc n)) joined)
      ∙ sym (rw (← e) (runs-first x q (y ∷ s)))

  fill_lem : (n : ℕ) (q s : List A) → length q ≤ n → fill n q s ≡ (take n (q ++ s), drop n (q ++ s))
  unfolding fill
  fill_lem n q [] h = rw (append-nil q, take-all n q h, drop-all n q h) refl
  fill_lem n q (x ∷ s) h = elim (Bool-cases (ltb (length q) n)) [
    | inl t ↦
        rw (t, fill)
          (fill_lem n (q ++ x ∷ []) s (ground (arith, length-append q (x ∷ [])))
            ∙ rw (append_assoc q (x ∷ []) s) refl)
    | inr f ↦
        let e : n ≡ length q = ground arith in
        rw (f, fill, e, take-append q (x ∷ s), drop-append q (x ∷ s)) refl
  ]

  -- `windowed` throws at size 0; at another size it gives every run of that many items, in order.
  pub windowed_lem :
      (n : ℕ) (s : List A) → (windowed 0 s ≡ none) × (windowed (suc n) s ≡ some (runs (suc n) s))
  unfolding windowed
  windowed_lem n s = (
    refl,
    rw (fill_lem (suc n) [] s (omega arith)) (elim (Bool-cases (leb (suc n) (length s))) [
      | inl t ↦
          let e : length (take (suc n) s) ≡ suc n = ground (arith, length-take (suc n) s) in
          let test : (length (take (suc n) s) == suc n) ≡ true = ground (arith, e) in
          rw test (
            ap some (
              slide_lem n (take (suc n) s) (drop (suc n) s) e
              ∙ ap (runs (suc n)) (take-append-drop (suc n) s)))
      | inr f ↦
          let test : (length (take (suc n) s) == suc n) ≡ false =
            ground (arith, length-take (suc n) s) in
          rw test (ap some (sym (runs-short (suc n) s (leb-false (suc n) (length s) f))))
    ]),
  )
