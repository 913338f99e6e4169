-- ===== src/FileStore/Changes.antt =====
-- What `WriteJobState` of OddJob.Storage.FileSystem/FileSystemJobQueueManager.cs makes of the list of jobs.
use odd_job.Prelude.{
  ℕ, ◌+◌, ◌≡◌, ◌≢◌, refl, sym, ap, subst, ◌∙◌, ◌⊎◌, inl, inr, false, Option, none, some, List, [],
  ◌∷◌, map, arith, ◌==◌, ==_iff, Bool-cases, Option-cases, if◌then◌else◌, Text, ◌>>=◌,
}
use mathlib.Core.List.{Memᴰ}
use mathlib.Core.List.Memᴰ
use odd_job.FileStore.{
  FileJob, Codec, opened, Result, thrown, done, finish, keep_trying, placed, change_first,
  write_job_state,
}
use odd_job.FileStore.Openings.{reloaded}
use odd_job.FileStore.Fetches.{At}

-- Once an item has the guid, no later one does.
abbrev pub AtMostOne : ℕ → List FileJob → Type 0
AtMostOne guid [] = Unit
AtMostOne guid (q ∷ jobs) =
    (q.job_id ≡ guid → (r : FileJob) → Memᴰ r jobs → r.job_id ≢ guid) × AtMostOne guid jobs

abbrev or_none : Option (List FileJob) → List FileJob
or_none none = []
or_none (some l) = l

-- What stands in the list after a change: what the change made of the job, or another job.
abbrev pub Changed : ℕ → (FileJob → Option FileJob) → List FileJob → FileJob → Type 0
Changed guid f jobs x =
    (y : FileJob) × Memᴰ y jobs
    × (((y.job_id ≡ guid) × (f y ≡ some x)) ⊎ ((y.job_id ≢ guid) × (x ≡ y)))

Changed-tail :
    (guid : ℕ) (f : FileJob → Option FileJob) (q : FileJob) (jobs : List FileJob) (x : FileJob)
    → Changed guid f jobs x
    → Changed guid f (q ∷ jobs) x
Changed-tail guid f q jobs x (y, m, d) = (y, Memᴰ.tail m, d)

not_guid : (n guid : ℕ) → (n == guid) ≡ false → n ≢ guid
not_guid n guid f e = ground (arith, ==_iff n guid, f, e)

mem-placed :
    (n i : ℕ) (q : FileJob) (jobs : List FileJob) → Memᴰ (i, q) (placed n jobs) → Memᴰ q jobs
mem-placed n i q [] m = absurd (Memᴰ.not-nil m)
mem-placed n i q (r ∷ jobs) m = elim (Memᴰ.cases_cons m) [
  | inl e ↦ Memᴰ.head (ap (λ p. p.1) e)
  | inr k ↦ Memᴰ.tail (mem-placed (n + 1) i q jobs k)
]

pub reloaded_from :
    (read_value : ℕ → ℕ) (jobs : List FileJob) (i : ℕ) (q : FileJob)
    → At i q (map (reloaded read_value) jobs)
    → (x : FileJob) × Memᴰ x jobs × (q ≡ reloaded read_value x)
reloaded_from read_value jobs i q at =
    let read = reloaded read_value in
    let (x, n, e) = Memᴰ.of_map read jobs (mem-placed 0 i q (map read jobs) at) in (x, n, sym e)

pub bind-some :
    {A B : Type 0} (o : Option A) (g : A → Option B) (y : B)
    → (o >>= g) ≡ some y
    → (a : A) × (o ≡ some a) × (g a ≡ some y)
bind-some none g y e = absurd (ground arith)
bind-some (some a) g y e = (a, refl, e)

pub change_first-Changed :
    (guid : ℕ) (f : FileJob → Option FileJob) (jobs jobs' : List FileJob)
    → AtMostOne guid jobs
    → change_first guid f jobs ≡ some jobs'
    → (x : FileJob) → Memᴰ x jobs'
    → Changed guid f jobs x
unfolding change_first
change_first-Changed guid f [] jobs' one e x m =
    absurd (Memᴰ.not-nil (subst (Memᴰ x) (sym (ap or_none e)) m))
change_first-Changed guid f (q ∷ jobs) jobs' one e x m =
    let here : Option (List FileJob) = f q >>= λ r. some (r ∷ jobs) in
    let later : Option (List FileJob) =
      change_first guid f jobs >>= λ changed. some (q ∷ changed) in
    elim (Bool-cases (q.job_id == guid)) [
      | inl t ↦
          let is_q = (==_iff q.job_id guid).0 t in
          let (r, made, left) =
            bind-some (f q) (λ r. some (r ∷ jobs)) jobs'
              (ap (λ b. if b then here else later) (sym t) ∙ e) in
          elim (Memᴰ.cases_cons (subst (Memᴰ x) (sym (ap or_none left)) m)) [
            | inl is_r ↦ (q, Memᴰ.head refl, inl (is_q, made ∙ ap some (sym is_r)))
            | inr n ↦ (x, Memᴰ.tail n, inr (one.0 is_q x n, refl))
          ]
      | inr g ↦
          let (changed, made, left) =
            bind-some (change_first guid f jobs) (λ changed. some (q ∷ changed)) jobs'
              (ap (λ b. if b then here else later) (sym g) ∙ e) in
          elim (Memᴰ.cases_cons (subst (Memᴰ x) (sym (ap or_none left)) m)) [
            | inl is_q ↦ (q, Memᴰ.head refl, inr (not_guid q.job_id guid g, is_q))
            | inr n ↦
                Changed-tail guid f q jobs x
                  (change_first-Changed guid f jobs changed one.1 made x n)
          ]
    ]

abbrev text_of : Result Unit → Text
text_of (done _ t) = t
text_of _ = []

not_thrown : (t : Text) → thrown ≢ done tt t
not_thrown t e = ground arith

-- What a change that is made writes.
pub write_job_state-done :
    (codec : Codec) (guid : ℕ) (f : FileJob → Option FileJob) (content t : Text)
    (jobs : List FileJob)
    → codec.deserialize content ≡ some jobs
    → write_job_state codec guid f (opened (some content) ∷ []) ≡ done tt t
    → (jobs' : List FileJob) × (change_first guid f jobs ≡ some jobs') × (codec.serialize jobs' ≡ t)
unfolding write_job_state keep_trying
write_job_state-done codec guid f content t jobs e made =
    let end : Option (List FileJob) → Result Unit =
      λ o. finish (o >>= λ changed. some (tt, codec.serialize changed)) in
    let run : end (change_first guid f jobs) ≡ done tt t =
      ap
        (λ (o : Option (List FileJob)).
          finish
            (o >>= λ l. change_first guid f l >>= λ changed. some (tt, codec.serialize changed)))
        (sym e)
      ∙ made in
    elim (Option-cases (change_first guid f jobs)) [
      | inl n ↦ absurd (not_thrown t (ap end (sym n) ∙ run))
      | inr (jobs', s) ↦ (jobs', s, ap text_of (ap end (sym s) ∙ run))
    ]
