-- ===== src/FileStore/Examples.antt =====
-- Runs of the file's store on two jobs: fetches.
use odd_job.Prelude.{
  ℕ, ◌+◌, ◌≡◌, ◌≢◌, refl, ap, ◌∙◌, inl, inr, none, some, List, [], ◌∷◌, map, arith,
}
use mathlib.Core.List.{Memᴰ}
use mathlib.Core.List.Memᴰ
use odd_job.Seq.Loops.{exists, exists_from}
use odd_job.Seq.Slices.{filter_seq}
use odd_job.Grouping.{order_by}
use odd_job.FileStore.{
  FileJob, busy, opened, done, as_queued, fetch, chosen, is_fetchable, may_retry, fetch_order,
  get_jobs,
}
use odd_job.FileStore.Openings.{reloaded}
use odd_job.FileStore.Fetches.{At, UniqueGuids, Given, after, get_jobs-opened, get_jobs-Given}
use odd_job.FileStore.Once.{get_jobs-once}
use odd_job.FileStore.Coding.{plain, plain-IsCodec}
use odd_job.FileStore.Samples.{twice, job, jobs, content, content-read}

guid-At : (i : ℕ) (q : FileJob) → At i q jobs → q.job_id ≡ i + 1
guid-At i q m = elim (Memᴰ.cases_cons m) [
  | inl e ↦
      let g = ap (λ (p : ℕ × FileJob). p.1.job_id) e in
      let at = ap (λ (p : ℕ × FileJob). p.0) e in omega arith
  | inr n ↦
      let e = Memᴰ.eq_of_singleton n in
      let g = ap (λ (p : ℕ × FileJob). p.1.job_id) e in
      let at = ap (λ (p : ℕ × FileJob). p.0) e in omega arith
]

jobs-UniqueGuids : UniqueGuids jobs
jobs-UniqueGuids i j q r m n same = let a = guid-At i q m in let b = guid-At j r n in omega arith

get_jobs-Given_example :
    (given : List FileJob) × (jobs' : List FileJob) × (get_jobs plain
        (5 ∷ [])
        1
        50
        (busy ∷ opened (some content) ∷ [])
      ≡ done given (plain.serialize jobs'))
    × Given (5 ∷ []) 1 50 jobs given jobs'
get_jobs-Given_example = get_jobs-Given plain (5 ∷ []) 1 50 1 content [] jobs content-read

-- The older of the two is given first.
fetched_first : (fetch (5 ∷ []) 1 50 jobs).0 ≡ as_queued 50 (job 2 20 (some twice)) ∷ []
unfolding fetch chosen is_fetchable may_retry fetch_order exists exists_from filter_seq order_by
fetched_first = refl

abbrev left : List FileJob
left = job 1 30 none ∷ as_queued 50 (job 2 20 (some twice)) ∷ []

left_first : after (5 ∷ []) 1 50 jobs ≡ left
unfolding fetch chosen is_fetchable may_retry fetch_order exists exists_from filter_seq order_by
left_first = refl

first_fetch :
    get_jobs plain (5 ∷ []) 1 50 (opened (some content) ∷ [])
    ≡ done (as_queued 50 (job 2 20 (some twice)) ∷ []) (plain.serialize left)
first_fetch =
    get_jobs-opened plain (5 ∷ []) 1 50 0 content [] jobs content-read
    ∙ ap (λ given. done given (plain.serialize (after (5 ∷ []) 1 50 jobs))) fetched_first
    ∙ ap (λ l. done (as_queued 50 (job 2 20 (some twice)) ∷ []) (plain.serialize l)) left_first

second_fetch :
    get_jobs plain (5 ∷ []) 1 60 (opened (some (plain.serialize left)) ∷ [])
    ≡ done
        (as_queued 60 (job 1 30 none) ∷ [])
        (plain.serialize (after (5 ∷ []) 1 60 (map (reloaded plain.read_value) left)))
unfolding fetch chosen is_fetchable may_retry fetch_order exists exists_from filter_seq order_by
second_fetch =
    get_jobs-opened plain (5 ∷ []) 1 60 0 (plain.serialize left) []
      (map (reloaded plain.read_value) left) (plain-IsCodec.reads left)

get_jobs-once_example :
    (as_queued 50 (job 2 20 (some twice))).job_id ≢ (as_queued 60 (job 1 30 none)).job_id
get_jobs-once_example =
    get_jobs-once plain (5 ∷ []) (5 ∷ []) 1 1 50 60 content (plain.serialize left)
      (plain.serialize (after (5 ∷ []) 1 60 (map (reloaded plain.read_value) left))) jobs
      (as_queued 50 (job 2 20 (some twice)) ∷ []) (as_queued 60 (job 1 30 none) ∷ []) plain-IsCodec
      content-read jobs-UniqueGuids first_fetch second_fetch (as_queued 50 (job 2 20 (some twice)))
      (as_queued 60 (job 1 30 none)) (Memᴰ.head refl) (Memᴰ.head refl)
