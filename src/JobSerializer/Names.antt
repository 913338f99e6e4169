-- ===== src/JobSerializer/Names.antt =====
-- The names of types in UnversionedTypeSerializer.cs and TargetPlatformHelpers.cs: the core library's
-- name is replaced and put back.
use odd_job.Prelude.{
  Text, ℕ, zero, suc, ◌-◌, ◌≡◌, ◌≢◌, refl, sym, ap, ◌∙◌, inl, inr, Bool, true, false, [], ◌∷◌, ◌++◌,
  length, drop, arith, ◌==◌, ==_iff, ◌&&◌, Bool-cases,
}
use odd_job.SortedList.{All}
use odd_job.JobSerializer.{
  starts_with, replace_from, replace, Runtime, get_core_assembly_name, replace_core_types,
  unversioned_type_name,
}

is_same : (n : ℕ) → (n == n) ≡ true
is_same n = (==_iff n n).1 refl

starts_with-append : (p s : Text) → starts_with p (p ++ s) ≡ true
starts_with-append [] s = refl
starts_with-append (c ∷ p) s = rw (is_same c) (starts_with-append p s)

both : (a b : Bool) → (a && b) ≡ true → (a ≡ true) × (b ≡ true)
both true b h = (refl, h)
both false b h = absurd (ground arith)

-- A text that starts with another is that text and what follows it.
append-drop : (p s : Text) → starts_with p s ≡ true → p ++ drop (length p) s ≡ s
append-drop [] s h = refl
append-drop (c ∷ p) [] h = absurd (ground arith)
append-drop (c ∷ p) (d ∷ s) h =
    let (e, rest) = both (c == d) (starts_with p s) h in
    ap (λ v. v ∷ p ++ drop (length p) s) ((==_iff c d).0 e) ∙ ap (λ l. d ∷ l) (append-drop p s rest)

less_one : (n : ℕ) → suc n - 1 ≡ n
less_one n = omega arith

drop-nil : (n : ℕ) → drop {A = ℕ} n [] ≡ []
drop-nil zero = refl
drop-nil (suc n) = refl

-- Replacing a text that starts with a mark by another.
module _ (mark : ℕ) (tail core : Text) where
  back : ℕ → Text → Text
  back n s = replace_from n (mark ∷ tail) core s

  skip : (p s : Text) → back (length p) (p ++ s) ≡ back zero s
  unfolding back
  skip [] s = refl
  skip (c ∷ p) s = skip p s

  back-marked : (s : Text) → back zero ((mark ∷ tail) ++ s) ≡ core ++ back zero s
  unfolding back
  back-marked s =
      rw (is_same mark, starts_with-append tail s, less_one (length tail))
        (ap (λ l. core ++ l) (skip tail s))

  differs : (c : ℕ) → c ≢ mark → (mark == c) ≡ false
  differs c h = elim (Bool-cases (mark == c)) [
    | inl t ↦ absurd (h (sym ((==_iff mark c).0 t)))
    | inr f ↦ f
  ]

  back-other : (c : ℕ) (s : Text) → c ≢ mark → back zero (c ∷ s) ≡ c ∷ back zero s
  unfolding back
  back-other c s h = rw (differs c h) refl

-- In a text without the mark, what replaced the name is replaced by it again.
module _ (mark : ℕ) (tail : Text) (k : ℕ) (ks : Text) where
  back-replace_from :
      (n : ℕ) (s : Text)
      → All (λ c. c ≢ mark) s
      → back mark tail (k ∷ ks) zero (replace_from n (k ∷ ks) (mark ∷ tail) s) ≡ drop n s
  unfolding back
  back-replace_from n [] a = sym (drop-nil n)
  back-replace_from (suc n) (c ∷ s) a = back-replace_from n s a.1
  back-replace_from zero (c ∷ s) a =
      let after = back-replace_from (suc (length ks) - 1) s a.1 in
      let here = back-replace_from zero s a.1 in
      elim (Bool-cases (starts_with (k ∷ ks) (c ∷ s))) [
        | inl t ↦ rw t (
            back-marked mark tail (k ∷ ks)
              (replace_from (suc (length ks) - 1) (k ∷ ks) (mark ∷ tail) s)
            ∙ ap (λ l. (k ∷ ks) ++ l) (after ∙ ap (λ m. drop m s) (less_one (length ks)))
            ∙ append-drop (k ∷ ks) (c ∷ s) t)
        | inr f ↦ rw f (
            back-other mark tail (k ∷ ks) c (replace_from zero (k ∷ ks) (mark ∷ tail) s) a.0
            ∙ ap (λ l. c ∷ l) here)
      ]

replace-replace :
    (mark : ℕ) (tail core s : Text)
    → core ≢ []
    → All (λ c. c ≢ mark) s
    → replace (mark ∷ tail) core (replace core (mark ∷ tail) s) ≡ s
unfolding back
replace-replace mark tail [] s h a = absurd (h refl)
replace-replace mark tail (k ∷ ks) s h a = back-replace_from mark tail k ks zero s a

-- Where the name of a type, without its version, has no percent sign, and the core library has a
-- name, resolving what the serializer writes asks the run time for the name without its version.
pub replace_core_types-type_name :
    (rt : Runtime) (t : ℕ)
    → get_core_assembly_name rt ≢ []
    → All (λ c. c ≢ 37) (rt.without_version (rt.assembly_qualified_name t))
    → replace_core_types rt (unversioned_type_name rt t)
      ≡ rt.without_version (rt.assembly_qualified_name t)
unfolding replace_core_types unversioned_type_name
replace_core_types-type_name rt t h a = replace-replace 37 _ (get_core_assembly_name rt) _ h a
