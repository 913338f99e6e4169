-- ===== src/FileStore/Marks.antt =====
-- The marks of OddJob.Storage.FileSystem/FileSystemJobQueueManager.cs, and which jobs a fetch gives after.
use odd_job.Prelude.{
  ℕ, ◌≡◌, ◌≢◌, refl, sym, ap, subst, ◌∙◌, inl, inr, Bool, true, false, Option, none, some, List, [],
  ◌∷◌, map, ◌&&◌, Text,
}
use mathlib.Core.List.{Memᴰ}
use odd_job.SqlStore.Tables.{not_both}
use odd_job.SqlStore.{JobStates, same_state, new, retry, failed, processed}
use odd_job.FileStore.{
  FileJob, Codec, in_progress_text, Opening, opened, Result, done, is_fetchable, as_queued,
  get_jobs, write_job_state, mark_job_failed, mark_job_in_progress, mark_job_success,
}
use odd_job.FileStore.Openings.{reloaded, IsCodec}
use odd_job.FileStore.Fetches.{fetch-Given, get_jobs-opened}
use odd_job.FileStore.Once.{given_of}
use odd_job.FileStore.Changes.{AtMostOne, change_first-Changed, reloaded_from, write_job_state-done}

-- A job that a fetch gives from a list just written is one of the list, as it is read.
given_from :
    (codec : Codec) (t t2 : Text) (jobs' given : List FileJob) (queue_names : List ℕ)
    (fetch_size now : ℕ)
    → IsCodec codec
    → codec.serialize jobs' ≡ t
    → get_jobs codec queue_names fetch_size now (opened (some t) ∷ []) ≡ done given t2
    → (j : FileJob) → Memᴰ j given
    → (x : FileJob) × Memᴰ x jobs'
      × (j ≡ as_queued now (reloaded codec.read_value x))
      × (is_fetchable queue_names now (reloaded codec.read_value x) ≡ true)
given_from codec t t2 jobs' given queue_names fetch_size now law text fetched j m =
    let read : codec.deserialize t ≡ some (map (reloaded codec.read_value) jobs') =
      ap codec.deserialize (sym text) ∙ law.reads jobs' in
    let shape =
      sym (
        get_jobs-opened codec queue_names fetch_size now 0 t []
          (map (reloaded codec.read_value) jobs') read)
      ∙ fetched in
    let all = fetch-Given queue_names fetch_size now (map (reloaded codec.read_value) jobs') in
    let (i, q, at, may, is_q, _) = all.given_from j (subst (Memᴰ j) (sym (ap given_of shape)) m) in
    let (x, n, is_x) = reloaded_from codec.read_value jobs' i q at in
    (
      x,
      n,
      is_q ∙ ap (as_queued now) is_x,
      subst (λ v. is_fetchable queue_names now v ≡ true) is_x may,
    )

-- A job of the guid that a fetch gives after a change is what the change made of a job.
pub given_after :
    (codec : Codec) (guid : ℕ) (f : FileJob → Option FileJob) (content t t2 : Text)
    (jobs given : List FileJob) (queue_names : List ℕ) (fetch_size now : ℕ)
    → IsCodec codec
    → codec.deserialize content ≡ some jobs
    → AtMostOne guid jobs
    → write_job_state codec guid f (opened (some content) ∷ []) ≡ done tt t
    → get_jobs codec queue_names fetch_size now (opened (some t) ∷ []) ≡ done given t2
    → (j : FileJob) → Memᴰ j given
    → j.job_id ≡ guid
    → (y x : FileJob) × Memᴰ y jobs
      × (y.job_id ≡ guid)
      × (f y ≡ some x)
      × (j ≡ as_queued now (reloaded codec.read_value x))
      × (is_fetchable queue_names now (reloaded codec.read_value x) ≡ true)
given_after codec guid f content t t2 jobs given queue_names fetch_size now law e one made fetched j
      m same =
    let (jobs', changed, text) = write_job_state-done codec guid f content t jobs e made in
    let (x, n, is_j, may) =
      given_from codec t t2 jobs' given queue_names fetch_size now law text fetched j m in
    let (y, k, d) = change_first-Changed guid f jobs jobs' one changed x n in
    let same_x : x.job_id ≡ guid = sym (ap (λ (v : FileJob). v.job_id) is_j) ∙ same in
    elim d [
      | inl (mine, e') ↦ (y, x, k, mine, e', is_j, may)
      | inr (other, is_y) ↦ absurd (other (sym (ap (λ (v : FileJob). v.job_id) is_y) ∙ same_x))
    ]

-- The three marks after which a job is over or running.
pub data Mark : Type 0 where
  failure_at : ℕ → Mark
  progress_at : ℕ → Mark
  success_at : ℕ → Mark

unfoldable pub mark : Codec → Mark → ℕ → List Opening → Result Unit
mark codec (failure_at now) guid openings = mark_job_failed codec guid now openings
mark codec (progress_at now) guid openings = mark_job_in_progress codec guid now openings
mark codec (success_at now) guid openings = mark_job_success codec guid now openings

status_or : JobStates → Option FileJob → JobStates
status_or s none = s
status_or s (some v) = v.status

-- Neither new nor to be retried.
IsOver : JobStates → Type 0
IsOver s = (same_state s new ≡ false) × (same_state s retry ≡ false)

over-not_fetchable :
    (read_value : ℕ → ℕ) (queue_names : List ℕ) (now : ℕ) (x : FileJob)
    → IsOver x.status
    → is_fetchable queue_names now (reloaded read_value x) ≡ false
unfolding is_fetchable IsOver
over-not_fetchable read_value queue_names now x (a, b) = rw (a, b) (and_false _)
  where
    and_false : (c : Bool) → (c && false) ≡ false
    and_false true = refl
    and_false false = refl

module _ (codec : Codec) (guid : ℕ) (content t t2 : Text) (jobs given : List FileJob)
    (queue_names : List ℕ) (fetch_size now : ℕ) (law : IsCodec codec)
    (e : codec.deserialize content ≡ some jobs) (one : AtMostOne guid jobs)
    (fetched : get_jobs codec queue_names fetch_size now (opened (some t) ∷ []) ≡ done given t2)
    (j : FileJob) (m : Memᴰ j given) (same : j.job_id ≡ guid) where
  over_given :
      (f : FileJob → Option FileJob)
      → ((y x : FileJob) → f y ≡ some x → IsOver x.status)
      → write_job_state codec guid f (opened (some content) ∷ []) ≡ done tt t
      → ⊥
  over_given f over made =
      let (y, x, _, _, e', _, may) =
        given_after codec guid f content t t2 jobs given queue_names fetch_size now law e one made
          fetched j m same in
      not_both _ (over-not_fetchable codec.read_value queue_names now x (over y x e')) may

  marked_given : (k : Mark) → mark codec k guid (opened (some content) ∷ []) ≡ done tt t → ⊥
  unfolding mark mark_job_failed mark_job_in_progress mark_job_success IsOver status_or
  marked_given (failure_at then_now) =
      over_given (λ q. some (record q { status = failed; failure_time = then_now }))
        (λ y x h. subst IsOver (ap (status_or failed) h) (refl, refl))
  marked_given (progress_at then_now) =
      over_given (λ q. some (record q { status = in_progress_text; last_attempt_time = then_now }))
        (λ y x h. subst IsOver (ap (status_or failed) h) (refl, refl))
  marked_given (success_at then_now) =
      over_given (λ q. some (record q { status = processed; last_attempt_time = then_now }))
        (λ y x h. subst IsOver (ap (status_or failed) h) (refl, refl))

-- Once a job is marked failed, in progress or successful, a fetch from the file as it then is gives
-- no job of its guid, where the guid is in the file once, from any queue and at any time.
pub mark-not_given :
    (codec : Codec) (k : Mark) (guid : ℕ) (content t t2 : Text) (jobs given : List FileJob)
    (queue_names : List ℕ) (fetch_size now : ℕ)
    → IsCodec codec
    → codec.deserialize content ≡ some jobs
    → AtMostOne guid jobs
    → mark codec k guid (opened (some content) ∷ []) ≡ done tt t
    → get_jobs codec queue_names fetch_size now (opened (some t) ∷ []) ≡ done given t2
    → (j : FileJob) → Memᴰ j given
    → j.job_id ≢ guid
mark-not_given codec k guid content t t2 jobs given queue_names fetch_size now law e one made
      fetched j m same =
    marked_given codec guid content t t2 jobs given queue_names fetch_size now law e one fetched j m
      same k made
