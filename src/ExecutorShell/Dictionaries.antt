-- ===== src/ExecutorShell/Dictionaries.antt =====
-- The dictionaries of OddJob.Execution.Akka/JobExecutorShell.cs.
use odd_job.Prelude.{
  ℕ, ◌≡◌, ◌≢◌, refl, sym, ap, ◌∙◌, inl, inr, true, false, ◌||◌, none, [], ◌∷◌, ◌==◌, ==_iff,
  Bool-cases, is_some, arith, subst,
}
use odd_job.ExecutorShell.{Dictionary, get_value, contains_key, remove}

pub true-false : ¬ (true ≡ false)
true-false e = absurd (ground arith)

pub get_value-remove {ℓ} : {V : Type ℓ} (k : ℕ) (d : Dictionary V) → get_value k (remove k d) ≡ none
unfolding get_value remove
get_value-remove k [] = refl
get_value-remove k ((l, v) ∷ d) = elim (Bool-cases (k == l)) [
  | inl t ↦ rw t (get_value-remove k d)
  | inr f ↦ rw (f, f) (get_value-remove k d)
]

pub differs : (k q : ℕ) → k ≢ q → (k == q) ≡ false
differs k q h = elim (Bool-cases (k == q)) [ inl t ↦ absurd (h ((==_iff k q).0 t)) | inr f ↦ f ]

pub get_value-remove_other {ℓ} :
    {V : Type ℓ} (k l : ℕ) (d : Dictionary V)
    → (k == l) ≡ false
    → get_value k (remove l d) ≡ get_value k d
unfolding get_value remove
get_value-remove_other k l [] h = refl
get_value-remove_other k l ((m, v) ∷ d) h =
    let rest = get_value-remove_other k l d h in
    elim (Bool-cases (l == m)) [
      | inl t ↦ rw (t, subst (λ n. (k == n) ≡ false) ((==_iff l m).0 t) h) rest
      | inr f ↦ elim (Bool-cases (k == m)) [ inl t ↦ rw (f, t) refl | inr g ↦ rw (f, g) rest ]
    ]

-- A dictionary has each key once.
unfoldable pub IsDictionary {ℓ} : {V : Type ℓ} → Dictionary V → Type ℓ
IsDictionary [] = Unit
IsDictionary ((k, v) ∷ d) = (get_value k d ≡ none) × IsDictionary d

pub remove-absent {ℓ} :
    {V : Type ℓ} (k l : ℕ) (d : Dictionary V)
    → get_value k d ≡ none
    → get_value k (remove l d) ≡ none
remove-absent k l d h = elim (Bool-cases (k == l)) [
  | inl t ↦ subst (λ n. get_value k (remove n d) ≡ none) ((==_iff k l).0 t) (get_value-remove k d)
  | inr f ↦ get_value-remove_other k l d f ∙ h
]

pub remove-IsDictionary {ℓ} :
    {V : Type ℓ} (l : ℕ) (d : Dictionary V) → IsDictionary d → IsDictionary (remove l d)
unfolding IsDictionary remove
remove-IsDictionary l [] h = tt
remove-IsDictionary l ((k, v) ∷ d) h = elim (Bool-cases (l == k)) [
  | inl t ↦ rw t (remove-IsDictionary l d h.1)
  | inr f ↦ rw f (remove-absent k l d h.0, remove-IsDictionary l d h.1)
]

pub absent-present {ℓ κ} :
    {V : Type ℓ} {A : Type κ} (k : ℕ) (d : Dictionary V)
    → get_value k d ≡ none
    → contains_key k d ≡ true
    → A
absent-present k d n e = absurd (ground arith)

pub contains_key-remove {ℓ} :
    {V : Type ℓ} (k l : ℕ) (d : Dictionary V)
    → contains_key k (remove l d) ≡ true
    → ((k == l) ≡ false) × (contains_key k d ≡ true)
contains_key-remove k l d e = elim (Bool-cases (k == l)) [
  | inl t ↦
      absent-present k (remove l d)
        (subst (λ n. get_value k (remove n d) ≡ none) ((==_iff k l).0 t) (get_value-remove k d)) e
  | inr f ↦ (f, sym (ap is_some (get_value-remove_other k l d f)) ∙ e)
]

pub contains_key-cons {ℓ} :
    {V : Type ℓ} (k l : ℕ) (v : V) (d : Dictionary V)
    → contains_key k ((l, v) ∷ d) ≡ ((k == l) || contains_key k d)
unfolding get_value
contains_key-cons k l v d = elim (Bool-cases (k == l)) [ inl t ↦ rw t refl | inr f ↦ rw f refl ]
