-- ===== src/FileStore/Fetches.antt =====
-- What `GetJobs` of OddJob.Storage.FileSystem/FileSystemJobQueueManager.cs gives and leaves in the file.
use odd_job.Prelude.{
  ℕ, suc, ◌≤◌, ◌≡◌, refl, sym, ap, subst, ◌∙◌, ◌⊎◌, inl, inr, Bool, true, some, List, [], ◌∷◌, ◌++◌,
  map, arith, length, length-take, ==_iff, Bool-cases, if◌then◌else◌, Text, ◌>>=◌,
}
use mathlib.Core.List.{Memᴰ}
use mathlib.Core.List.Memᴰ
use odd_job.Seq.Loops.{exists}
use odd_job.Seq.Searches.{exists-cons, exists-nil}
use odd_job.SqlStore.Tables.{or_parts}
use odd_job.Seq.Slices.{filter_seq}
use odd_job.Grouping.{order_by}
use odd_job.Grouping.Ordered.{mem-order_by, Ascending-order_by}
use odd_job.Grouping.Queries.{filter_seq-mem, mem-filter_seq}
use odd_job.SqlQueue.Filters.{mem-exists}
use odd_job.FileStore.{
  FileJob, Codec, Opening, opened, done, finish, is_fetchable, fetch_order, placed, as_queued,
  chosen, is_at, queue_chosen, fetch, get_jobs,
}
use odd_job.FileStore.Openings.{sharing_violations, try_again}
use odd_job.FileStore.Places.{take-mem, take-Ascending, mem-placed_map, placed-same}

-- The item at a place of a list.
abbrev pub At : ℕ → FileJob → List FileJob → Type 0
At i q jobs = Memᴰ (i, q) (placed 0 jobs)

-- No two places of the list have the same guid.
abbrev pub UniqueGuids : List FileJob → Type 0
UniqueGuids jobs =
    (i j : ℕ) (q r : FileJob) → At i q jobs → At j r jobs → q.job_id ≡ r.job_id → i ≡ j

-- What a fetch gives and what it makes of the list: it gives jobs that may be fetched, as many as it
-- may, each queued in the list too; the other places stay; what it leaves is not older.
pub record Given (queue_names : List ℕ) (fetch_size now : ℕ) (jobs given jobs' : List FileJob)
    : Type 0 where
  pub size : length given ≤ fetch_size
  pub given_from :
      (j : FileJob)
      → Memᴰ j given
      → (i : ℕ) × (q : FileJob) × At i q jobs
        × (is_fetchable queue_names now q ≡ true)
        × (j ≡ as_queued now q)
        × At i j jobs'
  pub stays :
      (i : ℕ) (q : FileJob)
      → At i q jobs
      → (At i q jobs') ⊎ (Memᴰ (as_queued now q) given × At i (as_queued now q) jobs')
  pub oldest :
      (i : ℕ) (q : FileJob)
      → At i q jobs
      → is_fetchable queue_names now q ≡ true
      → Memᴰ (as_queued now q) given
        ⊎ ((length given ≡ fetch_size)
            × ((j : FileJob) → Memᴰ j given → fetch_order j ≤ fetch_order q))

length-map : {A B : Type 0} (f : A → B) (xs : List A) → length (map f xs) ≡ length xs
length-map f [] = refl
length-map f (x ∷ xs) = ap suc (length-map f xs)

exists-mem :
    (i : ℕ) (items : List (ℕ × FileJob))
    → exists (is_at i) items ≡ true
    → (q : FileJob) × Memᴰ (i, q) items
exists-mem i [] h = absurd (ground (arith, exists-nil (is_at i), h))
exists-mem i (p ∷ items) h =
    elim (or_parts (is_at i p) _ (sym (exists-cons (is_at i) p items) ∙ h)) [
      | inl e ↦ (p.1, Memᴰ.head (ap (λ k. (k, p.1)) (sym ((==_iff p.0 i).0 e))))
      | inr e ↦ let (q, m) = exists-mem i items e in (q, Memᴰ.tail m)
    ]

module _ (queue_names : List ℕ) (fetch_size now : ℕ) (jobs : List FileJob) where
  items : List (ℕ × FileJob)
  items = chosen queue_names fetch_size now jobs

  order : ℕ × FileJob → ℕ
  order p = fetch_order p.1

  ok : ℕ × FileJob → Bool
  ok p = is_fetchable queue_names now p.1

  items-mem : (p : ℕ × FileJob) → Memᴰ p items → Memᴰ p (placed 0 jobs) × (ok p ≡ true)
  unfolding items chosen order ok
  items-mem p m =
      filter_seq-mem ok p (placed 0 jobs)
        ((mem-order_by order p (filter_seq ok (placed 0 jobs))).0 (take-mem fetch_size p _ m))

  place_kept :
      (i : ℕ) (q : FileJob)
      → At i q jobs
      → At i (queue_chosen now items (i, q)) (fetch queue_names fetch_size now jobs).1
  unfolding items fetch
  place_kept i q m = mem-placed_map (queue_chosen now items) 0 i q jobs m

  place_queued :
      (i : ℕ) (q : FileJob)
      → Memᴰ (i, q) items
      → At i (as_queued now q) (fetch queue_names fetch_size now jobs).1
  place_queued i q m =
      let t = mem-exists (is_at i) (i, q) items m ((==_iff i i).1 refl) in
      let kept = place_kept i q (items-mem (i, q) m).0 in
      subst (λ b. At i (if b then as_queued now q else q) (fetch queue_names fetch_size now jobs).1)
        t kept

  given_queued :
      (i : ℕ) (q : FileJob)
      → Memᴰ (i, q) items
      → Memᴰ (as_queued now q) (fetch queue_names fetch_size now jobs).0
  unfolding items fetch
  given_queued i q m = Memᴰ.map (λ (p : ℕ × FileJob). as_queued now p.1) m

  pub fetch-Given :
      Given queue_names fetch_size now jobs
        (fetch queue_names fetch_size now jobs).0
        (fetch queue_names fetch_size now jobs).1
  unfolding items order ok fetch chosen fetch_order
  fetch-Given = record {
    size =
        let l = length-map (λ (p : ℕ × FileJob). as_queued now p.1) items in
        let t = length-take fetch_size (order_by order (filter_seq ok (placed 0 jobs))) in
        omega arith;
    given_from = λ j m.
        let ((i, q), k, e) = Memᴰ.of_map (λ (p : ℕ × FileJob). as_queued now p.1) items m in
        let (at, h) = items-mem (i, q) k in
        (
          i,
          q,
          at,
          h,
          sym e,
          subst (λ v. At i v (fetch queue_names fetch_size now jobs).1) e (place_queued i q k),
        );
    stays = λ i q m. elim (Bool-cases (exists (is_at i) items)) [
      | inl t ↦
          let (r, k) = exists-mem i items t in
          let same = placed-same 0 i r q jobs (items-mem (i, r) k).0 m in
          let k' = subst (λ v. Memᴰ (i, v) items) same k in
          inr (given_queued i q k', place_queued i q k')
      | inr f ↦ inl (
          subst
            (λ b. At i (if b then as_queued now q else q) (fetch queue_names fetch_size now jobs).1)
            f (place_kept i q m))
    ];
    oldest = λ i q m h.
        let all = order_by order (filter_seq ok (placed 0 jobs)) in
        let there =
          (mem-order_by order (i, q) (filter_seq ok (placed 0 jobs))).1
            (mem-filter_seq ok (i, q) (placed 0 jobs) m h) in
        elim (take-Ascending order fetch_size (i, q) all (Ascending-order_by order _) there) [
          | inl k ↦ inl (given_queued i q k)
          | inr (full, before) ↦ inr (
            length-map (λ (p : ℕ × FileJob). as_queued now p.1) items ∙ full,
            λ j k.
                let (p, l, e) = Memᴰ.of_map (λ (p : ℕ × FileJob). as_queued now p.1) items k in
                subst (λ v. fetch_order v ≤ fetch_order q) e (before p l),
          )
        ];
  }

abbrev pub after : List ℕ → ℕ → ℕ → List FileJob → List FileJob
after queue_names fetch_size now jobs = (fetch queue_names fetch_size now jobs).1

pub get_jobs-opened :
    (codec : Codec) (queue_names : List ℕ) (fetch_size now n : ℕ) (content : Text)
    (openings : List Opening) (jobs : List FileJob)
    → codec.deserialize content ≡ some jobs
    → get_jobs codec queue_names fetch_size now
        (sharing_violations n ++ opened (some content) ∷ openings)
      ≡ done
          (fetch queue_names fetch_size now jobs).0
          (codec.serialize (after queue_names fetch_size now jobs))
unfolding get_jobs
get_jobs-opened codec queue_names fetch_size now n content openings jobs e =
    (try_again _ n (some content) openings).1.1
    ∙ ap
        (λ read. finish (
          read >>= λ l.
          let result = fetch queue_names fetch_size now l in
          some (result.0, codec.serialize result.1)))
        e

-- Where the file holds a list of jobs once no other process has it, a fetch gives jobs that may be
-- fetched, at most the number that is asked for, and writes a list in which they are queued and
-- all else is as it was. A job that may be fetched is left out only by a full fetch of jobs that are
-- no younger, in the order of the store.
pub get_jobs-Given :
    (codec : Codec) (queue_names : List ℕ) (fetch_size now n : ℕ) (content : Text)
    (openings : List Opening) (jobs : List FileJob)
    → codec.deserialize content ≡ some jobs
    → (given : List FileJob) × (jobs' : List FileJob) × (get_jobs codec queue_names fetch_size now
          (sharing_violations n ++ opened (some content) ∷ openings)
        ≡ done given (codec.serialize jobs'))
      × Given queue_names fetch_size now jobs given jobs'
get_jobs-Given codec queue_names fetch_size now n content openings jobs e = (
  (fetch queue_names fetch_size now jobs).0,
  after queue_names fetch_size now jobs,
  get_jobs-opened codec queue_names fetch_size now n content openings jobs e,
  fetch-Given queue_names fetch_size now jobs,
)
