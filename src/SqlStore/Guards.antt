-- ===== src/SqlStore/Guards.antt =====
-- The updates of BaseSqlJobQueueManager.cs that ask for the job's old status first.
use odd_job.Prelude.{
  ℕ, ◌≡◌, refl, ap, ◌∙◌, Bool, true, false, Option, List, [], ◌∷◌, arith, ◌||◌, if◌then◌else◌,
}
use odd_job.Seq.Loops.{exists}
use odd_job.Seq.Searches.{exists-cons}
use odd_job.SqlStore.{Row, JobStates, ParamRow, update}
use odd_job.SqlStore.Commands.{
  is_updatable, is_empty, apply_all, overwrite, update_job_metadata_and_parameters,
  update_job_metadata_values, update_job_metadata_full,
}
use odd_job.Seq.Searches.{exists-cons}

or_false : (a b : Bool) → (a || b) ≡ false → (a ≡ false) × (b ≡ false)
or_false a b h = ground arith

module _ {A : Type 0} where
  -- An update that no row passes leaves the table.
  update-none :
      (p : A → Bool) (f : A → A) (rows : List A) → exists p rows ≡ false → update p f rows ≡ rows
  unfolding update
  update-none p f [] h = refl
  update-none p f (r ∷ rows) h =
      let (here, rest) = or_false (p r) (exists p rows) (rw (← exists-cons p r rows) h) in
      rw (here, update, update-none p f rows rest) refl

  if-same : (b : Bool) (x : A) → (if b then x else x) ≡ x
  if-same true x = refl
  if-same false x = refl

-- Where no row has the job's guid and the old status that is asked for, the three updates leave both
-- tables. Two of them report this with false; `UpdateJobMetadataFull` reports true.
pub guarded-unchanged :
    (guid : ℕ) (old_status : Option JobStates) (setters : List (Row → Row))
    (param_setters : List (ℕ × List (ParamRow → ParamRow))) (meta : Row) (rows : List Row)
    (params : List ParamRow)
    → meta.job_guid ≡ guid
    → exists (is_updatable guid old_status) rows ≡ false
    → (update_job_metadata_and_parameters
          (record {
            job_guid = guid;
            old_status = old_status;
            set_job_metadata = setters;
            set_job_parameters = param_setters;
          })
          rows
          params
        ≡ (false, (rows, params)))
      × (update_job_metadata_values setters guid old_status rows ≡ (false, rows))
      × (update_job_metadata_full meta old_status rows ≡ (true, rows))
unfolding update_job_metadata_and_parameters update_job_metadata_values update_job_metadata_full
guarded-unchanged guid old_status setters param_setters meta rows params same h =
    let kept = update-none (is_updatable guid old_status) (apply_all setters) rows h in
    (
      rw (h, kept) (ap (λ r. (false, (r, params))) (if-same (is_empty setters) rows)),
      rw (h, kept) (if-same (is_empty setters) (false, rows)),
      ap (λ r. (true, r))
          (update-none (is_updatable meta.job_guid old_status) (overwrite meta) rows
            (ap (λ g. exists (is_updatable g old_status) rows) same ∙ h)),
    )
