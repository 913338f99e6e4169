-- ===== src/SqlQueue/Visibility.antt =====
-- When a job that BaseSqlJobQueueAdder.cs adds can be fetched.
use odd_job.Prelude.{
  ℕ, zero, suc, ◌-◌, ◌≡◌, ◌≢◌, refl, sym, ap, subst, ◌∙◌, ◌⊎◌, inl, inr, Bool, true, false, some,
  List, [], ◌∷◌, ◌++◌, arith, ◌==◌, ==_iff, leb, ◌&&◌, length, get_elem?,
}
use mathlib.Core.List.{Memᴰ}
use mathlib.Core.List.Memᴰ
use odd_job.SortedList.{All}
use odd_job.Seq.Loops.{exists}
use odd_job.JobData.{SerializableOddJob}
use odd_job.SqlStore.{
  Row, inserting, new, retry, OrderBy, holds_lock, get_jobs, ticks, has_guid, is_fetchable, is_due,
  may_run, is_unclaimed, is_null_or,
}
use odd_job.SqlStore.Conditions.{IsOrderBy}
use odd_job.SqlStore.Tables.{UniqueIds, some-injective}
use odd_job.SqlStore.Locks.{get_jobs-made}
use odd_job.SqlStore.Updates.{Settled, Settled-given}
use odd_job.SqlQueue.{Tables, has_id, as_new, meta_data_for_job, insert_job, add_job}
use odd_job.SqlQueue.RoundTrip.{IsFresh, rows-add_job}

mem-get_elem? : (rows : List Row) (i : ℕ) (r : Row) → get_elem? rows i ≡ some r → Memᴰ r rows
mem-get_elem? [] i r e = absurd (ground arith)
mem-get_elem? (s ∷ rows) zero r e = Memᴰ.head (sym (some-injective s r e))
mem-get_elem? (s ∷ rows) (suc i) r e = Memᴰ.tail (mem-get_elem? rows i r e)

-- Where a row of a table with one more stands.
get_elem?-snoc :
    (rows : List Row) (r s : Row) (i : ℕ)
    → get_elem? (rows ++ r ∷ []) i ≡ some s
    → (get_elem? rows i ≡ some s) ⊎ ((i ≡ length rows) × (s ≡ r))
get_elem?-snoc [] r s zero e = inr (refl, sym (some-injective r s e))
get_elem?-snoc [] r s (suc i) e = absurd (ground arith)
get_elem?-snoc (x ∷ rows) r s zero e = inl e
get_elem?-snoc (x ∷ rows) r s (suc i) e = elim (get_elem?-snoc rows r s i e) [
  | inl g ↦ inl g
  | inr (g, h) ↦ inr (ap suc g, h)
]

not_same : (r : Row) (n : ℕ) → has_id n r ≡ false → r.id ≢ n
not_same r n f e = ground (arith, ==_iff r.id n, f, e)

UniqueIds-snoc :
    (rows : List Row) (r : Row)
    → UniqueIds rows
    → ((x : Row) → Memᴰ x rows → has_id r.id x ≡ false)
    → UniqueIds (rows ++ r ∷ [])
UniqueIds-snoc rows r unique fresh i j x y e g same =
    let apart : (k : ℕ) (z w : Row) → get_elem? rows k ≡ some z → w ≡ r → z.id ≢ w.id =
      λ k z w a b c.
        not_same z r.id (fresh z (mem-get_elem? rows k z a)) (c ∙ ap (λ (v : Row). v.id) b) in
    elim (get_elem?-snoc rows r x i e) [
      | inl a ↦ elim (get_elem?-snoc rows r y j g) [
        | inl b ↦ unique i j x y a b same
        | inr (_, b) ↦ absurd (apart i x y a b same)
      ]
      | inr (k, a) ↦ elim (get_elem?-snoc rows r y j g) [
        | inl b ↦ absurd (apart j y x b a (sym same))
        | inr (l, _) ↦ k ∙ sym l
      ]
    ]

inserting≢new : inserting ≢ new
inserting≢new e = ground arith

inserting≢retry : inserting ≢ retry
inserting≢retry e = ground arith

not_guid : (r : Row) (n : ℕ) → has_guid n r ≡ false → r.job_guid ≢ n
not_guid r n f e = ground (arith, ==_iff r.job_guid n, f, e)

inserted-Settled :
    (now inserted_id : ℕ) (job : SerializableOddJob) (t : Tables)
    → IsFresh inserted_id job.job_id t
    → Settled job.job_id (insert_job now inserted_id job t).rows
unfolding insert_job meta_data_for_job
inserted-Settled now inserted_id job t fresh i r e same =
    elim (get_elem?-snoc t.rows (meta_data_for_job now inserted_id job) r i e) [
      | inl a ↦ absurd (not_guid r job.job_id (fresh.rows r (mem-get_elem? t.rows i r a)) same)
      | inr (_, b) ↦
          let s : r.status ≡ inserting = ap (λ (v : Row). v.status) b in
          ((λ h. inserting≢new (sym s ∙ h)), (λ h. inserting≢retry (sym s ∙ h)))
    ]

-- A fetch that comes between the commands by which a job is added, once its row is there and before
-- its status is set, gives no job of its guid, whatever its order, size and times: no worker is
-- handed a job whose parameters may still be missing.
pub insert_job-not_fetched :
    (o : OrderBy) (timeout : ℕ) (queue_names : List ℕ) (size lock time now : ℕ)
    (created inserted_id : ℕ) (job : SerializableOddJob) (t : Tables) (jobs after : List Row)
    → IsOrderBy o
    → UniqueIds t.rows
    → IsFresh inserted_id job.job_id t
    → All (λ r. holds_lock lock r ≡ false) (insert_job created inserted_id job t).rows
    → get_jobs o timeout queue_names size lock time now (insert_job created inserted_id job t).rows
      ≡ some (jobs, after)
    → All (λ j. j.job_guid ≢ job.job_id) jobs
unfolding insert_job meta_data_for_job
insert_job-not_fetched o timeout queue_names size lock time now created inserted_id job t jobs after
      law unique fresh unlocked made =
    let rows = (insert_job created inserted_id job t).rows in
    let (fetched, _) =
      get_jobs-made o timeout queue_names size lock time now rows law
        (UniqueIds-snoc t.rows (meta_data_for_job created inserted_id job) unique fresh.ids)
        unlocked jobs after made in
    Settled-given job.job_id queue_names lock time (now - ticks timeout) rows jobs after
      (inserted-Settled created inserted_id job t fresh) fetched

both_true : (a b : Bool) → (a && (b && true)) ≡ (a && b)
both_true true true = refl
both_true true false = refl
both_true false b = refl

-- Once it is added, its row may be fetched exactly by the calls that name its queue, from its
-- execution time on: nothing else of the row holds it back.
pub add_job-is_fetchable :
    (queue_names : List ℕ) (time threshold created inserted_id : ℕ) (job : SerializableOddJob)
    (t : Tables)
    → IsFresh inserted_id job.job_id t
    → (r : Row) × Memᴰ r (add_job created inserted_id job t).rows
      × (r.job_guid ≡ job.job_id)
      × (is_fetchable queue_names time threshold r ≡ (
          exists (λ n. n == job.queue_name) queue_names
          && is_null_or (λ d. leb d time) job.execution_time))
unfolding meta_data_for_job is_fetchable is_due may_run is_unclaimed
add_job-is_fetchable queue_names time threshold created inserted_id job t fresh =
    let r = as_new (meta_data_for_job created inserted_id job) in
    (
      r,
      subst (λ rows. Memᴰ r rows) (sym (rows-add_job created inserted_id job t fresh))
          (Memᴰ.append_right t.rows (Memᴰ.head refl)),
      refl,
      both_true _ _,
    )
