-- ===== src/SqlStore/Locks.antt =====
-- What a fetch of BaseSqlJobQueueManager.cs claims: only jobs that may run, and none of another's.
use odd_job.Prelude.{
  ℕ, ◌-◌, ◌≤◌, ◌≡◌, ◌≢◌, refl, sym, ap, subst, ◌∙◌, ◌⊎◌, inl, inr, Bool, true, false, Option, none,
  some, List, [], arith, ltb, ltb-false, ==_iff, ◌==◌, Bool-cases, get_elem?,
}
use odd_job.SortedList.{All, All-imp}
use odd_job.Seq.Slices.{filter_seq}
use odd_job.SqlStore.{
  Row, JobLockData, OrderBy, update, is_fetchable, lock_data, claim, holds_lock, ticks, get_jobs,
  locking_check, is_chosen,
}
use odd_job.SqlStore.Conditions.{IsOrderBy, MayFetch, is_fetchable-MayFetch}
use odd_job.SqlStore.Tables.{
  UniqueIds, All-take, exists-All, InTable, All-filter_seq, All-map, same_row, get_elem?-update,
  update-get_elem?, UniqueIds-update, All-get, not_both,
}

-- A row that is chosen by a fetchable row of the same id.
record Chosen (queue_names : List ℕ) (time threshold : ℕ) (rows : List Row) (d : JobLockData)
    : Type 0 where
  row : Row
  stored : InTable row rows
  fetchable : is_fetchable queue_names time threshold row ≡ true
  same_id : d.job_id ≡ row.id

locking_check-Chosen :
    (o : OrderBy) (queue_names : List ℕ) (fetch_size time threshold : ℕ) (rows : List Row)
    → IsOrderBy o
    → All
        (Chosen queue_names time threshold rows)
        (locking_check o queue_names fetch_size time threshold rows)
unfolding locking_check lock_data
locking_check-Chosen o queue_names fetch_size time threshold rows law = All-take _ fetch_size _ (
    law.keeps _ _ (
      All-map _ lock_data _ (
        All-imp (λ r (m, h). record { row = r; stored = m; fetchable = h; same_id = refl })
          (filter_seq (is_fetchable queue_names time threshold) rows)
          (All-filter_seq (is_fetchable queue_names time threshold) rows))))

-- With unique ids, a row that the query chooses is one that it may fetch.
is_chosen-MayFetch :
    (o : OrderBy) (queue_names : List ℕ) (fetch_size time threshold : ℕ) (rows : List Row) (r : Row)
    → IsOrderBy o
    → UniqueIds rows
    → InTable r rows
    → is_chosen (locking_check o queue_names fetch_size time threshold rows) r ≡ true
    → MayFetch queue_names time threshold r
unfolding is_chosen
is_chosen-MayFetch o queue_names fetch_size time threshold rows r law unique m h =
    let (d, e, c) =
      exists-All (λ (d : JobLockData). d.job_id == r.id) _ _ h
        (locking_check-Chosen o queue_names fetch_size time threshold rows law) in
    let same =
      same_row rows r c.row unique m c.stored (sym ((==_iff d.job_id r.id).0 e) ∙ c.same_id) in
    rw same (is_fetchable-MayFetch queue_names time threshold c.row c.fetchable)

-- What a fetch does to the table, and which jobs it gives.
pub record Fetched (queue_names : List ℕ) (guid time threshold : ℕ) (rows jobs rows' : List Row)
    : Type 0 where
  pub stored :
      (i : ℕ) (r : Row)
      → get_elem? rows i ≡ some r
      → (get_elem? rows' i ≡ some r)
        ⊎ (MayFetch queue_names time threshold r × (get_elem? rows' i ≡ some (claim guid time r)))
  pub given :
      All
        (λ j.
          (r : Row) × InTable r rows
          × MayFetch queue_names time threshold r
          × (j ≡ claim guid time r)
          × InTable j rows')
        jobs

abbrev pair_of : Option (List Row × List Row) → List Row × List Row
pair_of none = ([], [])
pair_of (some p) = p

not_made : (p : List Row × List Row) → none ≢ some p
not_made p e = ground arith

module _ (o : OrderBy) (timeout : ℕ) (queue_names : List ℕ) (fetch_size guid time now : ℕ)
    (rows : List Row) (law : IsOrderBy o) (unique : UniqueIds rows)
    (fresh : All (λ r. holds_lock guid r ≡ false) rows) where
  abbrev threshold : ℕ
  threshold = now - ticks timeout

  abbrev chosen : Row → Bool
  chosen r = is_chosen (locking_check o queue_names fetch_size time threshold rows) r

  abbrev rows' : List Row
  rows' = update chosen (claim guid time) rows

  stored_in :
      (i : ℕ) (r : Row)
      → get_elem? rows i ≡ some r
      → (get_elem? rows' i ≡ some r)
        ⊎ (MayFetch queue_names time threshold r × (get_elem? rows' i ≡ some (claim guid time r)))
  stored_in i r e =
      let u = get_elem?-update chosen (claim guid time) rows i r e in
      elim (Bool-cases (chosen r)) [
        | inl t ↦ inr (
          is_chosen-MayFetch o queue_names fetch_size time threshold rows r law unique (i, e) t,
          u ∙ rw t refl,
        )
        | inr f ↦ inl (u ∙ rw f refl)
      ]

  -- A row that holds the fresh guid afterwards has been claimed by this call.
  given_by :
      (j : Row)
      → InTable j rows'
      → holds_lock guid j ≡ true
      → (r : Row) × InTable r rows
        × MayFetch queue_names time threshold r
        × (j ≡ claim guid time r)
        × InTable j rows'
  given_by j (i, e) h =
      let (r, e', a) = update-get_elem? chosen (claim guid time) rows i j e in
      elim (Bool-cases (chosen r)) [
        | inl t ↦ (
          r,
          (i, e'),
          is_chosen-MayFetch o queue_names fetch_size time threshold rows r law unique (i, e') t,
          a ∙ rw t refl,
          (i, e),
        )
        | inr f ↦ absurd (
            not_both (holds_lock guid r)
              (All-get (λ x. holds_lock guid x ≡ false) rows i r fresh e')
              (let same : j ≡ r = a ∙ rw f refl in ap (holds_lock guid) (sym same) ∙ h))
      ]

  -- Where the ids of the rows differ, the fresh guid is on no row, and the claim timeout reaches no
  -- further back than time does, a fetch gives jobs and a table: it leaves each row or claims it,
  -- and claims it only if it may be fetched; and each job that it gives is a row that it has claimed.
  pub get_jobs-Fetched :
      ticks timeout ≤ now
      → (jobs : List Row) × (after : List Row) × (get_jobs o timeout queue_names fetch_size guid
            time now rows
          ≡ some (jobs, after))
        × Fetched queue_names guid time (now - ticks timeout) rows jobs after
        × UniqueIds after
  unfolding get_jobs
  get_jobs-Fetched late =
      let test : ltb now (ticks timeout) ≡ false = ground arith in
      (
        filter_seq (holds_lock guid) rows',
        rows',
        rw test refl,
        record {
          stored = stored_in;
          given =
              All-imp (λ j (m, h). given_by j m h) (filter_seq (holds_lock guid) rows')
                (All-filter_seq (holds_lock guid) rows');
        },
        UniqueIds-update chosen (claim guid time) rows (λ r. refl) unique,
      )

  none_made :
      (jobs after : List Row)
      → ltb now (ticks timeout) ≡ true
      → get_jobs o timeout queue_names fetch_size guid time now rows ≢ some (jobs, after)
  unfolding get_jobs
  none_made jobs after early made = not_made (jobs, after) (sym (rw early refl) ∙ made)

  -- What a fetch has given, if it gave anything.
  pub get_jobs-made :
      (jobs after : List Row)
      → get_jobs o timeout queue_names fetch_size guid time now rows ≡ some (jobs, after)
      → Fetched queue_names guid time (now - ticks timeout) rows jobs after × UniqueIds after
  get_jobs-made jobs after made = elim (Bool-cases (ltb now (ticks timeout))) [
    | inl early ↦ absurd (none_made jobs after early made)
    | inr late ↦
        let (jobs', after', made', fetched, distinct) =
          get_jobs-Fetched (ltb-false now (ticks timeout) late) in
        let same : (jobs', after') ≡ (jobs, after) = ap pair_of (sym made' ∙ made) in
        (
          subst
              (λ (p : List Row × List Row).
                Fetched queue_names guid time (now - ticks timeout) rows p.0 p.1)
              same fetched,
          subst (λ (p : List Row × List Row). UniqueIds p.1) same distinct,
        )
  ]
