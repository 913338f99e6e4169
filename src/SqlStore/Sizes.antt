-- ===== src/SqlStore/Sizes.antt =====
-- How many jobs a fetch of BaseSqlJobQueueManager.cs gives.
use odd_job.Prelude.{
  ℕ, suc, ◌+◌, ◌-◌, ◌≤◌, subst, ◌≡◌, refl, sym, ap, ◌∙◌, Bool, true, false, Option, none, some,
  List, [], ◌∷◌, arith, length, length-take, ltb, ◌==◌, ==_iff, ◌||◌, Bool-cases, inl, inr,
  get_elem?, fun_ext, map,
}
use odd_job.SortedList.{All}
use odd_job.Seq.Searches.{exists-cons, exists-nil}
use odd_job.Seq.Slices.{filter_seq}
use odd_job.SqlStore.{
  Row, JobLockData, OrderBy, update, claim, holds_lock, get_jobs, locking_check, is_chosen, ticks,
  is_fetchable, lock_data,
}
use odd_job.SqlStore.Tables.{UniqueIds}

filter_seq-or :
    (p q : Row → Bool) (rows : List Row)
    → length (filter_seq (λ r. p r || q r) rows)
      ≤ length (filter_seq p rows) + length (filter_seq q rows)
unfolding filter_seq
filter_seq-or p q [] = omega arith
filter_seq-or p q (r ∷ rows) = ground (arith, filter_seq-or p q rows)

filter_seq-false :
    (p : Row → Bool) (rows : List Row)
    → ((j : ℕ) (s : Row) → get_elem? rows j ≡ some s → p s ≡ false)
    → filter_seq p rows ≡ []
unfolding filter_seq
filter_seq-false p [] h = refl
filter_seq-false p (r ∷ rows) h =
    ground (arith, h 0 r refl, filter_seq-false p rows (λ j s e. h (suc j) s e))

UniqueIds-tail : (r : Row) (rows : List Row) → UniqueIds (r ∷ rows) → UniqueIds rows
UniqueIds-tail r rows u i j s t e f same =
    let k : suc i ≡ suc j = u (suc i) (suc j) s t e f same in omega (arith, k)

-- An id is in a table at most once.
filter_seq-id :
    (k : ℕ) (rows : List Row) → UniqueIds rows → length (filter_seq (λ r. k == r.id) rows) ≤ 1
unfolding filter_seq
filter_seq-id k [] u = omega arith
filter_seq-id k (r ∷ rows) u = elim (Bool-cases (k == r.id)) [
  | inl t ↦
      let others : filter_seq (λ s. k == s.id) rows ≡ [] =
        filter_seq-false (λ s. k == s.id) rows (λ j s e. other_id j s e t) in
      rw (t, filter_seq, others) (omega arith)
  | inr f ↦ rw (f, filter_seq) (filter_seq-id k rows (UniqueIds-tail r rows u))
]
  where
    other_id :
        (j : ℕ) (s : Row) → get_elem? rows j ≡ some s → (k == r.id) ≡ true → (k == s.id) ≡ false
    other_id j s e t = elim (Bool-cases (k == s.id)) [
      | inl both ↦
          let same : r.id ≡ s.id = sym ((==_iff k r.id).0 t) ∙ (==_iff k s.id).0 both in
          let z : 0 ≡ suc j = u 0 (suc j) r s refl e same in absurd (omega (arith, z))
      | inr f ↦ f
    ]

is_chosen-nil : (r : Row) → is_chosen [] r ≡ false
unfolding is_chosen
is_chosen-nil r = exists-nil (λ (e : JobLockData). e.job_id == r.id)

is_chosen-cons :
    (d : JobLockData) (ds : List JobLockData) (r : Row)
    → is_chosen (d ∷ ds) r ≡ ((d.job_id == r.id) || is_chosen ds r)
unfolding is_chosen
is_chosen-cons d ds r = exists-cons (λ (e : JobLockData). e.job_id == r.id) d ds

length-is_chosen :
    (ds : List JobLockData) (rows : List Row)
    → UniqueIds rows
    → length (filter_seq (is_chosen ds) rows) ≤ length ds
length-is_chosen [] rows u =
    let none_chosen : filter_seq (is_chosen []) rows ≡ [] =
      filter_seq-false (is_chosen []) rows (λ j s e. is_chosen-nil s) in
    rw none_chosen (omega arith)
length-is_chosen (d ∷ ds) rows u =
    let same : is_chosen (d ∷ ds) ≡ (λ r. (d.job_id == r.id) || is_chosen ds r) =
      fun_ext (λ r. is_chosen-cons d ds r) in
    rw same (
      omega (
        arith,
        filter_seq-or (λ r. d.job_id == r.id) (is_chosen ds) rows,
        filter_seq-id d.job_id rows u,
        length-is_chosen ds rows u,
      ))

-- The rows that hold a fresh guid afterwards are the chosen ones.
length-claimed :
    (p : Row → Bool) (guid time : ℕ) (rows : List Row)
    → All (λ r. holds_lock guid r ≡ false) rows
    → length (filter_seq (holds_lock guid) (update p (claim guid time) rows))
      ≡ length (filter_seq p rows)
unfolding filter_seq update
length-claimed p guid time [] a = refl
length-claimed p guid time (r ∷ rows) a = elim (Bool-cases (p r)) [
  | inl t ↦
      let held : holds_lock guid (claim guid time r) ≡ true = (==_iff guid guid).1 refl in
      rw (t, update, filter_seq, held) (ap suc (length-claimed p guid time rows a.1))
  | inr f ↦ rw (f, update, filter_seq, a.0) (length-claimed p guid time rows a.1)
]

abbrev jobs_of : Option (List Row × List Row) → List Row
jobs_of none = []
jobs_of (some (jobs, _)) = jobs

length-locking_check :
    (o : OrderBy) (queue_names : List ℕ) (fetch_size time threshold : ℕ) (rows : List Row)
    → length (locking_check o queue_names fetch_size time threshold rows) ≤ fetch_size
unfolding locking_check
length-locking_check o queue_names fetch_size time threshold rows =
    let candidates = filter_seq (is_fetchable queue_names time threshold) rows in
    omega (arith, length-take fetch_size (o.order (map lock_data candidates)))

length-get_jobs :
    (o : OrderBy) (timeout : ℕ) (queue_names : List ℕ) (fetch_size guid time now : ℕ)
    (rows : List Row)
    → UniqueIds rows
    → All (λ r. holds_lock guid r ≡ false) rows
    → length (jobs_of (get_jobs o timeout queue_names fetch_size guid time now rows)) ≤ fetch_size
unfolding get_jobs
length-get_jobs o timeout queue_names fetch_size guid time now rows u fresh =
    let chosen = locking_check o queue_names fetch_size time (now - ticks timeout) rows in
    elim (Bool-cases (ltb now (ticks timeout))) [
      | inl t ↦ rw t (omega arith)
      | inr f ↦ rw f (
          omega (
            arith,
            length-claimed (is_chosen chosen) guid time rows fresh,
            length-is_chosen chosen rows u,
            length-locking_check o queue_names fetch_size time (now - ticks timeout) rows,
          ))
    ]

-- Where the ids of the rows differ and the guid is fresh, a fetch gives at most as many jobs as it
-- is asked for.
pub get_jobs-size :
    (o : OrderBy) (timeout : ℕ) (queue_names : List ℕ) (fetch_size guid time now : ℕ)
    (rows jobs after : List Row)
    → UniqueIds rows
    → All (λ r. holds_lock guid r ≡ false) rows
    → get_jobs o timeout queue_names fetch_size guid time now rows ≡ some (jobs, after)
    → length jobs ≤ fetch_size
get_jobs-size o timeout queue_names fetch_size guid time now rows jobs after u fresh made =
    subst (λ (given : List Row). length given ≤ fetch_size) (ap jobs_of made)
      (length-get_jobs o timeout queue_names fetch_size guid time now rows u fresh)
