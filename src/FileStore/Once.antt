-- ===== src/FileStore/Once.antt =====
-- Two fetches of OddJob.Storage.FileSystem/FileSystemJobQueueManager.cs, one after the other.
use odd_job.Prelude.{
  ℕ, ◌≡◌, ◌≢◌, refl, sym, ap, subst, ◌∙◌, Bool, true, false, some, List, [], ◌∷◌, map, ◌&&◌,
  if◌then◌else◌, Text,
}
use mathlib.Core.List.{Memᴰ}
use odd_job.Seq.Loops.{exists}
use odd_job.SqlStore.Tables.{not_both}
use odd_job.SqlStore.{JobStates}
use odd_job.FileStore.{
  FileJob, Codec, queued, opened, Result, done, is_fetchable, as_queued, chosen, is_at,
  queue_chosen, fetch, get_jobs,
}
use odd_job.FileStore.Openings.{reloaded, IsCodec}
use odd_job.FileStore.Places.{placed-map-placed, placed-map, placed-same}
use odd_job.FileStore.Fetches.{At, UniqueGuids, after, get_jobs-opened, fetch-Given}

abbrev pub given_of : Result (List FileJob) → List FileJob
given_of (done given t) = given
given_of _ = []

abbrev pub text_of : Result (List FileJob) → Text
text_of (done given t) = t
text_of _ = []

queued-not_fetchable :
    (queue_names : List ℕ) (now : ℕ) (q : FileJob)
    → q.status ≡ queued
    → is_fetchable queue_names now q ≡ false
unfolding is_fetchable
queued-not_fetchable queue_names now q e = rw e (no_state _)
  where
    no_state : (b : Bool) → (b && false) ≡ false
    no_state true = refl
    no_state false = refl

-- A place of the list that a fetch leaves holds the job that was there, with its guid.
left_from :
    (queue_names : List ℕ) (fetch_size now : ℕ) (jobs : List FileJob) (i : ℕ) (x : FileJob)
    → At i x (after queue_names fetch_size now jobs)
    → (y : FileJob) × At i y jobs × (x.job_id ≡ y.job_id)
unfolding fetch
left_from queue_names fetch_size now jobs i x m =
    let picked = chosen queue_names fetch_size now jobs in
    let (y, at, e) = placed-map-placed (queue_chosen now picked) 0 i x jobs m in
    (y, at, ap (λ (v : FileJob). v.job_id) e ∙ same_id (exists (is_at i) picked) y)
  where
    same_id : (b : Bool) (y : FileJob) → (if b then as_queued now y else y).job_id ≡ y.job_id
    same_id true y = refl
    same_id false y = refl

-- A job that one fetch gives is in no later fetch's result: where the guids in the file differ, two
-- fetches with the first one's text between them give no guid twice, from whatever queues and at
-- whatever times. There is no time after which a queued job is given again.
pub get_jobs-once :
    (codec : Codec) (queue_names1 queue_names2 : List ℕ) (size1 size2 now1 now2 : ℕ)
    (content t1 t2 : Text) (jobs given1 given2 : List FileJob)
    → IsCodec codec
    → codec.deserialize content ≡ some jobs
    → UniqueGuids jobs
    → get_jobs codec queue_names1 size1 now1 (opened (some content) ∷ []) ≡ done given1 t1
    → get_jobs codec queue_names2 size2 now2 (opened (some t1) ∷ []) ≡ done given2 t2
    → (j k : FileJob) → Memᴰ j given1
    → Memᴰ k given2
    → j.job_id ≢ k.job_id
get_jobs-once codec queue_names1 queue_names2 size1 size2 now1 now2 content t1 t2 jobs given1 given2
      law e unique first second j k m n same =
    let left = after queue_names1 size1 now1 jobs in
    let made1 = sym (get_jobs-opened codec queue_names1 size1 now1 0 content [] jobs e) ∙ first in
    let read : codec.deserialize t1 ≡ some (map (reloaded codec.read_value) left) =
      ap codec.deserialize (sym (ap text_of made1)) ∙ law.reads left in
    let made2 =
      sym (
        get_jobs-opened codec queue_names2 size2 now2 0 t1 [] (map (reloaded codec.read_value) left)
          read)
      ∙ second in
    let f1 = fetch-Given queue_names1 size1 now1 jobs in
    let f2 = fetch-Given queue_names2 size2 now2 (map (reloaded codec.read_value) left) in
    let (i, q, at, _, is_q, there) = f1.given_from j (subst (Memᴰ j) (sym (ap given_of made1)) m) in
    let (i2, r, at2, may, is_r, _) = f2.given_from k (subst (Memᴰ k) (sym (ap given_of made2)) n) in
    let (x, at_x, is_x) = placed-map (reloaded codec.read_value) 0 i2 r left at2 in
    let (y, at_y, same_id) = left_from queue_names1 size1 now1 jobs i2 x at_x in
    let id : FileJob → ℕ = λ v. v.job_id in
    let place : i ≡ i2 =
      unique i i2 q y at at_y (sym (ap id is_q) ∙ same ∙ ap id is_r ∙ ap id is_x ∙ same_id) in
    let is_j : j ≡ x = placed-same 0 i2 j x left (subst (λ v. At v j left) place there) at_x in
    let state : FileJob → JobStates = λ v. v.status in
    let never =
      queued-not_fetchable queue_names2 now2 r
        (ap state is_x ∙ sym (ap state is_j) ∙ ap state is_q) in
    not_both (is_fetchable queue_names2 now2 r) never may
