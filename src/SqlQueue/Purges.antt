-- ===== src/SqlQueue/Purges.antt =====
-- BaseSqlJobQueuePurger.cs: what a purge removes, and what it leaves to be read.
use odd_job.Prelude.{
  ℕ, ◌≡◌, refl, sym, ap, inl, inr, ◌∙◌, Bool, true, false, some, List, [], ◌∷◌, ◌++◌, map, arith,
  ◌==◌, ==_iff, if◌then◌else◌, not, ◌&&◌, Bool-cases,
}
use mathlib.Core.List.{Memᴰ}
use mathlib.Core.List.Memᴰ
use odd_job.Seq.Slices.{filter_seq}
use odd_job.Grouping.{group_by}
use odd_job.Grouping.Queries.{filter_seq-mem}
use odd_job.SqlStore.{JobStates, Row, ParamRow, has_guid}
use odd_job.SqlQueue.{GenericRow, Tables, is_purged, purged_guid, purge_queue}
use odd_job.SqlQueue.Reading.{
  QueueRowSet, Arrangement, left_joins, with_all, with_params, with_generics, or_unmatched,
  serializable_join, read_all, get_serializable_jobs_by_criteria,
}
use odd_job.SqlQueue.Filters.{filter_seq-none, exists-none}
use odd_job.SqlQueue.RoundTrip.{IsArrangement}

and_false : (a b : Bool) → (b ≡ true → a ≡ false) → (a && b) ≡ false
and_false true true h = h refl
and_false true false h = refl
and_false false b h = refl

no_items : (xs : List QueueRowSet) → ((q : QueueRowSet) → Memᴰ q xs → ⊥) → xs ≡ []
no_items [] h = refl
no_items (q ∷ xs) h = absurd (h q (Memᴰ.head refl))

not_both : (b : Bool) → not b ≡ true → b ≡ true → ⊥
not_both b f t = ground arith

-- Filtering by a test that every item of interest passes changes no query.
filter_seq-kept :
    {A : Type 0} (q keep : A → Bool) (xs : List A)
    → ((x : A) → Memᴰ x xs → q x ≡ true → keep x ≡ true)
    → filter_seq q (filter_seq keep xs) ≡ filter_seq q xs
unfolding filter_seq
filter_seq-kept q keep [] h = refl
filter_seq-kept q keep (x ∷ xs) h =
    let rest = filter_seq-kept q keep xs (λ y m. h y (Memᴰ.tail m)) in
    elim (Bool-cases (keep x)) [
      | inl t ↦ elim (Bool-cases (q x)) [
        | inl u ↦ rw (t, u) (ap (λ r. x ∷ r) rest)
        | inr u ↦ rw (t, u) rest
      ]
      | inr f ↦ elim (Bool-cases (q x)) [
        | inl u ↦ let g = h x (Memᴰ.head refl) u in absurd (ground arith)
        | inr u ↦ rw (f, u) rest
      ]
    ]

with_all-same :
    {A : Type 0} (f g : A → List QueueRowSet) (xs : List A)
    → ((x : A) → Memᴰ x xs → f x ≡ g x)
    → with_all f xs ≡ with_all g xs
with_all-same f g [] h = refl
with_all-same f g (x ∷ xs) h =
    ap (λ l. l ++ with_all f xs) (h x (Memᴰ.head refl))
    ∙ ap (λ l. g x ++ l) (with_all-same f g xs (λ y m. h y (Memᴰ.tail m)))

-- Each parameter and each generic type belongs to a job.
pub record HasJobs (t : Tables) : Type 0 where
  pub params :
      (p : ParamRow) → Memᴰ p t.params → (r : Row) × Memᴰ r t.rows × (r.job_guid ≡ p.job_guid)
  pub generics :
      (g : GenericRow) → Memᴰ g t.generics → (r : Row) × Memᴰ r t.rows × (r.job_guid ≡ g.job_guid)

module _ (name : ℕ) (state : JobStates) (older_than : ℕ) where
  module _ (d : Arrangement) (law : IsArrangement d) (t : Tables) (guid : ℕ) where
    purged_read :
        ((r : Row)
          → Memᴰ r t.rows
          → has_guid guid r ≡ true
          → is_purged name state older_than r ≡ true)
        → get_serializable_jobs_by_criteria d (has_guid guid) (purge_queue name state older_than t)
          ≡ some []
    unfolding purge_queue get_serializable_jobs_by_criteria serializable_join left_joins group_by
    purged_read all =
        let t' = purge_queue name state older_than t in
        let none_left : filter_seq (has_guid guid) t'.rows ≡ [] =
          filter_seq-none (has_guid guid) t'.rows (λ r m.
            let (n, h) = filter_seq-mem _ r t.rows m in
            elim (Bool-cases (has_guid guid r)) [
              | inl u ↦
                  let g = all r n u in absurd (not_both (is_purged name state older_than r) h g)
              | inr f ↦ f
            ]) in
        let empty = no_items (d.arrange []) (λ q m. Memᴰ.not-nil ((law.same q []).0 m)) in
        ap (λ rows. serializable_join d rows t') none_left
        ∙ ap (λ l. read_all d.unmatched (group_by (λ (q : QueueRowSet). q.meta_data.job_guid) l))
            empty

    kept_read :
        ((r : Row)
          → Memᴰ r t.rows
          → has_guid guid r ≡ true
          → is_purged name state older_than r ≡ false)
        → get_serializable_jobs_by_criteria d (has_guid guid) (purge_queue name state older_than t)
          ≡ get_serializable_jobs_by_criteria d (has_guid guid) t
    unfolding purge_queue get_serializable_jobs_by_criteria serializable_join left_joins
    kept_read none_purged =
        let t' = purge_queue name state older_than t in
        let found = filter_seq (has_guid guid) t.rows in
        let rows : filter_seq (has_guid guid) t'.rows ≡ found =
          filter_seq-kept (has_guid guid) _ t.rows (λ r m h. ap not (none_purged r m h)) in
        let stays : (r : Row) (n : ℕ)
            → Memᴰ r found
            → (r.job_guid == n) ≡ true
            → not (purged_guid name state older_than t.rows n) ≡ true =
          λ r n m h.
            let (_, u) = filter_seq-mem (has_guid guid) r t.rows m in
            ap not (
              exists-none _ t.rows (λ x k. and_false _ _ (λ same. none_purged x k (
                (==_iff x.job_guid guid).1 (
                  (==_iff x.job_guid n).0 same
                  ∙ sym ((==_iff r.job_guid n).0 h)
                  ∙ (==_iff r.job_guid guid).0 u))))) in
        let joined : (r : Row)
            → Memᴰ r found
            → with_params t'.params t'.generics r ≡ with_params t.params t.generics r =
          λ r m.
            let ps =
              filter_seq-kept (λ (p : ParamRow). r.job_guid == p.job_guid) _ t.params
                (λ p _ h. stays r p.job_guid m h) in
            let gs =
              filter_seq-kept (λ (g : GenericRow). r.job_guid == g.job_guid) _ t.generics
                (λ g _ h. stays r g.job_guid m h) in
            ap (λ l. with_all (with_generics r t'.generics) (or_unmatched l)) ps
            ∙ ap
                (λ l.
                  with_all
                    (λ p.
                      map (λ g. record { meta_data = r; param_data = p; generic_data = g })
                        (or_unmatched l))
                    (or_unmatched
                      (filter_seq (λ (p : ParamRow). r.job_guid == p.job_guid) t.params)))
                gs in
        ap (λ l. serializable_join d l t') rows
        ∙ ap
            (λ l.
              read_all d.unmatched
                (group_by (λ (q : QueueRowSet). q.meta_data.job_guid) (d.arrange l)))
            (with_all-same _ _ found joined)

-- Where the rows of a guid all meet the condition of a purge, nothing is read under that guid
-- afterwards; where none meets it, what is read is what was read before, with its parameters and
-- generic types.
pub purge_queue-read :
    (name : ℕ) (state : JobStates) (older_than : ℕ) (d : Arrangement) (t : Tables) (guid : ℕ)
    (b : Bool)
    → IsArrangement d
    → ((r : Row) → Memᴰ r t.rows → has_guid guid r ≡ true → is_purged name state older_than r ≡ b)
    → get_serializable_jobs_by_criteria d (has_guid guid) (purge_queue name state older_than t)
      ≡ (if b then some [] else get_serializable_jobs_by_criteria d (has_guid guid) t)
purge_queue-read name state older_than d t guid true law h =
    purged_read name state older_than d law t guid h
purge_queue-read name state older_than d t guid false law h =
    kept_read name state older_than d law t guid h
