-- ===== src/SqlStore/Examples.antt =====
-- Runs of the store on a small table.
use odd_job.Prelude.{
  zero, suc, ◌+◌, ◌-◌, ◌*◌, ◌^◌, ◌≤◌, ◌≡◌, ◌≢◌, refl, true, false, none, some, List, [], ◌∷◌, arith,
}
use odd_job.SortedList.{All}
use odd_job.SqlStore.{
  Row, new, retry, OrderBy, get_jobs, holds_lock, claim, mark_job_in_retry_and_increment, ticks,
  locking_check, is_chosen, update, is_fetchable, is_due, may_run, is_unclaimed, lock_data,
  as_retry, as_processed, as_failed, mark_job_success,
}
use odd_job.SqlStore.Commands.{
  is_updatable, update_job_metadata_and_parameters, update_job_metadata_values,
  update_job_metadata_full,
}
use odd_job.SqlStore.Tables.{UniqueIds, InTable}
use odd_job.SqlStore.Conditions.{IsOrderBy}
use odd_job.SqlStore.Locks.{Fetched, get_jobs-Fetched}
use odd_job.SqlStore.Fetches.{get_jobs-disjoint, marked-not_fetched, retried-waits}
use odd_job.SqlStore.Updates.{success, mark}
use odd_job.Prelude.{length}
use odd_job.SqlStore.Sizes.{get_jobs-size}
use odd_job.SqlStore.Guards.{guarded-unchanged}
use odd_job.Seq.Loops.{exists, exists_from}
use odd_job.Seq.Slices.{filter_seq}

-- The database may keep the order of the table.
abbrev table_order : OrderBy
table_order = record { order = λ xs. xs }

table_order-IsOrderBy : IsOrderBy table_order
table_order-IsOrderBy = record { keeps = λ P xs a. a }

abbrev first_row : Row
first_row = record {
  id = 1;
  job_guid = 11;
  queue_name = 5;
  type_executed_on = [];
  method_name = 0;
  do_not_execute_before = none;
  status = new;
  max_retries = 2;
  min_retry_wait = 1;
  retry_count = 0;
  last_attempt = none;
  created_date = some 3;
  lock_guid = none;
  lock_claim_time = none;
}

abbrev second_row : Row
second_row = record first_row {
  id = 2;
  job_guid = 12;
  status = retry;
  retry_count = 1;
  last_attempt = some 4;
}

abbrev table : List Row
table = first_row ∷ second_row ∷ []

table-UniqueIds : UniqueIds table
table-UniqueIds zero zero r s e f h = refl
table-UniqueIds zero (suc zero) r s e f h = ground arith
table-UniqueIds (suc zero) zero r s e f h = ground arith
table-UniqueIds (suc zero) (suc zero) r s e f h = refl
table-UniqueIds (suc (suc i)) j r s e f h = ground arith
table-UniqueIds zero (suc (suc j)) r s e f h = ground arith
table-UniqueIds (suc zero) (suc (suc j)) r s e f h = ground arith

-- One job at a time, at the second and the third second.
abbrev claimed_table : List Row
claimed_table = claim 91 (2 * 10 ^ 7) first_row ∷ second_row ∷ []

fetch_one :
    get_jobs table_order 1 (5 ∷ []) 1 91 (2 * 10 ^ 7) (2 * 10 ^ 7) table
    ≡ some (claim 91 (2 * 10 ^ 7) first_row ∷ [], claimed_table)
unfolding get_jobs locking_check is_chosen update is_fetchable is_due may_run is_unclaimed lock_data
    exists exists_from filter_seq
fetch_one = refl

get_jobs-Fetched_example :
    (jobs : List Row) × (after : List Row) × (get_jobs table_order 1
        (5 ∷ [])
        1
        91
        (2 * 10 ^ 7)
        (2 * 10 ^ 7)
        table
      ≡ some (jobs, after))
    × Fetched (5 ∷ []) 91 (2 * 10 ^ 7) (2 * 10 ^ 7 - ticks 1) table jobs after
    × UniqueIds after
get_jobs-Fetched_example =
    get_jobs-Fetched table_order 1 (5 ∷ []) 1 91 (2 * 10 ^ 7) (2 * 10 ^ 7) table
      table_order-IsOrderBy table-UniqueIds (refl, (refl, tt)) (omega arith)

abbrev claimed_job : Row
claimed_job = claim 91 (2 * 10 ^ 7) first_row

-- A second later the other job is due for its retry.
abbrev second_job : Row
second_job = claim 92 (3 * 10 ^ 7) second_row

abbrev both_claimed : List Row
both_claimed = claimed_job ∷ second_job ∷ []

fetch_other :
    get_jobs table_order 1 (5 ∷ []) 2 92 (3 * 10 ^ 7) (3 * 10 ^ 7) claimed_table
    ≡ some (second_job ∷ [], both_claimed)
unfolding get_jobs locking_check is_chosen update is_fetchable is_due may_run is_unclaimed lock_data
    exists exists_from filter_seq
fetch_other = refl

get_jobs-disjoint_example :
    All (λ (j : Row). All (λ (k : Row). j.id ≢ k.id) (second_job ∷ [])) (claimed_job ∷ [])
get_jobs-disjoint_example =
    get_jobs-disjoint table_order 1 (5 ∷ []) (5 ∷ []) 1 2 91 92 (2 * 10 ^ 7) (3 * 10 ^ 7)
      (2 * 10 ^ 7) (3 * 10 ^ 7) table (claimed_job ∷ []) claimed_table (second_job ∷ [])
      both_claimed table_order-IsOrderBy table-UniqueIds (refl, (refl, tt)) (refl, (refl, tt))
      fetch_one fetch_other (omega arith)

get_jobs-size_example : length (claimed_job ∷ []) ≤ 1
get_jobs-size_example =
    get_jobs-size table_order 1 (5 ∷ []) 1 91 (2 * 10 ^ 7) (2 * 10 ^ 7) table (claimed_job ∷ [])
      claimed_table table-UniqueIds (refl, (refl, tt)) fetch_one

-- After a success nothing is left to fetch but the other job.
half_done-fresh : All (λ r. holds_lock 92 r ≡ false) (mark success 11 table)
unfolding mark mark_job_success update
half_done-fresh = (refl, (refl, tt))

fetch_left :
    get_jobs table_order 1 (5 ∷ []) 2 92 (3 * 10 ^ 7) (3 * 10 ^ 7) (mark success 11 table)
    ≡ some (second_job ∷ [], as_processed first_row ∷ second_job ∷ [])
unfolding get_jobs locking_check is_chosen update is_fetchable is_due may_run is_unclaimed lock_data
    exists exists_from filter_seq mark mark_job_success
fetch_left = refl

marked-not_fetched_example : All (λ (j : Row). j.job_guid ≢ 11) (second_job ∷ [])
marked-not_fetched_example =
    marked-not_fetched table_order 1 (5 ∷ []) 2 92 (3 * 10 ^ 7) (3 * 10 ^ 7) success 11 table
      (second_job ∷ []) (as_processed first_row ∷ second_job ∷ []) table_order-IsOrderBy
      table-UniqueIds half_done-fresh fetch_left

-- A job marked for its first retry at the first second is fetched at the second.
abbrev retried : List Row
retried = mark_job_in_retry_and_increment 11 0 (10 ^ 7) (first_row ∷ [])

abbrev retried_job : Row
retried_job = claim 93 (2 * 10 ^ 7) (as_retry (10 ^ 7) first_row)

one_row-UniqueIds : UniqueIds (first_row ∷ [])
one_row-UniqueIds zero zero r s e f h = refl
one_row-UniqueIds (suc i) j r s e f h = ground arith
one_row-UniqueIds zero (suc j) r s e f h = ground arith

retried-fresh : All (λ r. holds_lock 93 r ≡ false) retried
unfolding mark_job_in_retry_and_increment update
retried-fresh = (refl, tt)

fetch_retried :
    get_jobs table_order 1 (5 ∷ []) 2 93 (2 * 10 ^ 7) (2 * 10 ^ 7) retried
    ≡ some (retried_job ∷ [], retried_job ∷ [])
unfolding get_jobs locking_check is_chosen update is_fetchable is_due may_run is_unclaimed lock_data
    exists exists_from filter_seq mark_job_in_retry_and_increment
fetch_retried = refl

retried-waits_example :
    All
      (λ (j : Row).
        j.job_guid ≡ 11
        → (r : Row) × InTable r (first_row ∷ [])
          × (r.job_guid ≡ 11)
          × (j.retry_count ≡ r.retry_count + 1)
          × (r.retry_count + 1 ≤ r.max_retries)
          × (10 ^ 7 + ticks r.min_retry_wait ≤ 2 * 10 ^ 7))
      (retried_job ∷ [])
retried-waits_example =
    retried-waits table_order 1 (5 ∷ []) 2 93 (2 * 10 ^ 7) (2 * 10 ^ 7) 11 0 (10 ^ 7)
      (first_row ∷ []) (retried_job ∷ []) (retried_job ∷ []) table_order-IsOrderBy one_row-UniqueIds
      retried-fresh fetch_retried

no_new : exists (is_updatable 12 (some new)) table ≡ false
unfolding exists exists_from
no_new = refl

-- A job that is being retried is not overwritten as a new one.
guarded-unchanged_example :
    (update_job_metadata_and_parameters
        (record {
          job_guid = 12;
          old_status = some new;
          set_job_metadata = as_failed ∷ [];
          set_job_parameters = [];
        })
        table
        []
      ≡ (false, (table, [])))
    × (update_job_metadata_values (as_failed ∷ []) 12 (some new) table ≡ (false, table))
    × (update_job_metadata_full (as_failed second_row) (some new) table ≡ (true, table))
guarded-unchanged_example =
    guarded-unchanged 12 (some new) (as_failed ∷ []) [] (as_failed second_row) table [] refl no_new
