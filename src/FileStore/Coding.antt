-- ===== src/FileStore/Coding.antt =====
-- A text for each list of jobs of OddJob.Storage.FileSystem, in place of the JSON library's: it stands
-- in where a run needs one.
use odd_job.Prelude.{
  ℕ, zero, suc, ◌+◌, ◌≡◌, refl, sym, ap, ◌∙◌, false, Option, none, some, List, [], ◌∷◌, ◌++◌, map,
  append_assoc, append-nil, length, Text, ◌>>=◌,
}
use odd_job.JobData.{RetryParameters}
use odd_job.JobSerializer.{Parameter}
use odd_job.SqlStore.{JobStates, processed, new, failed, retry, in_progress, inserting, other}
use odd_job.FileStore.{FileJob, Codec}
use odd_job.FileStore.Adding.{is_blank}
use odd_job.FileStore.Openings.{reloaded, IsCodec}

record Coder (A : Type 0) : Type 0 where
  put : A → Text
  get : Text → Option (A × Text)
  law : (a : A) (rest : Text) → get (put a ++ rest) ≡ some (a, rest)

number : Coder ℕ
number = record { put = λ n. n ∷ []; get = first; law = λ n rest. refl }
  where
    first : Text → Option (ℕ × Text)
    first [] = none
    first (n ∷ rest) = some (n, rest)

module _ {A B : Type 0} (a : Coder A) (b : Coder B) where
  get_both : Text → Option ((A × B) × Text)
  get_both t = a.get t >>= λ x. b.get x.1 >>= λ y. some ((x.0, y.0), y.1)

  both : Coder (A × B)
  unfolding get_both
  both = record {
    put = λ p. a.put p.0 ++ b.put p.1;
    get = get_both;
    law = λ p rest.
        rw
          (append_assoc (a.put p.0) (b.put p.1) rest, a.law p.0 (b.put p.1 ++ rest), b.law p.1 rest)
          refl;
  }

by_way_of :
    {A B : Type 0} (a : Coder A) (to : B → A) (from : A → B) → ((y : B) → from (to y) ≡ y) → Coder B
by_way_of a to from back = record {
  put = λ y. a.put (to y);
  get = λ t. a.get t >>= λ x. some (from x.0, x.1);
  law = λ y rest.
      ap (λ o. o >>= λ x. some (from x.0, x.1)) (a.law (to y) rest)
      ∙ ap (λ v. some (v, rest)) (back y);
}

module _ {A : Type 0} (a : Coder A) where
  put_option : Option A → Text
  put_option none = 0 ∷ []
  put_option (some x) = 1 ∷ a.put x

  get_option : Text → Option (Option A × Text)
  get_option [] = none
  get_option (zero ∷ t) = some (none, t)
  get_option (suc n ∷ t) = a.get t >>= λ x. some (some x.0, x.1)

  option : Coder (Option A)
  unfolding put_option get_option
  option = record { put = put_option; get = get_option; law = back }
    where
      back : (o : Option A) (rest : Text) → get_option (put_option o ++ rest) ≡ some (o, rest)
      back none rest = refl
      back (some x) rest = rw (a.law x rest) refl

  put_all : List A → Text
  put_all [] = []
  put_all (x ∷ xs) = a.put x ++ put_all xs

  get_all : ℕ → Text → Option (List A × Text)
  get_all zero t = some ([], t)
  get_all (suc n) t = a.get t >>= λ x. get_all n x.1 >>= λ xs. some (x.0 ∷ xs.0, xs.1)

  get_all-put_all :
      (xs : List A) (rest : Text) → get_all (length xs) (put_all xs ++ rest) ≡ some (xs, rest)
  unfolding put_all get_all
  get_all-put_all [] rest = refl
  get_all-put_all (x ∷ xs) rest =
      rw
        (
          append_assoc (a.put x) (put_all xs) rest,
          a.law x (put_all xs ++ rest),
          get_all-put_all xs rest,
        )
        refl

  get_list : Text → Option (List A × Text)
  get_list [] = none
  get_list (n ∷ t) = get_all n t

  list : Coder (List A)
  unfolding get_list
  list = record {
    put = λ xs. length xs ∷ put_all xs;
    get = get_list;
    law = λ xs rest. get_all-put_all xs rest;
  }

state_number : JobStates → ℕ × ℕ
state_number processed = (0, 0)
state_number new = (1, 0)
state_number failed = (2, 0)
state_number retry = (3, 0)
state_number in_progress = (4, 0)
state_number inserting = (5, 0)
state_number (other n) = (6, n)

numbered_state : ℕ × ℕ → JobStates
numbered_state (zero, _) = processed
numbered_state (suc zero, _) = new
numbered_state (suc (suc zero), _) = failed
numbered_state (suc (suc (suc zero)), _) = retry
numbered_state (suc (suc (suc (suc zero))), _) = in_progress
numbered_state (suc (suc (suc (suc (suc zero)))), _) = inserting
numbered_state (suc (suc (suc (suc (suc (suc k))))), n) = other n

numbered_state-state_number : (s : JobStates) → numbered_state (state_number s) ≡ s
unfolding state_number numbered_state
numbered_state-state_number processed = refl
numbered_state-state_number new = refl
numbered_state-state_number failed = refl
numbered_state-state_number retry = refl
numbered_state-state_number in_progress = refl
numbered_state-state_number inserting = refl
numbered_state-state_number (other n) = refl

state : Coder JobStates
state = by_way_of (both number number) state_number numbered_state numbered_state-state_number

parameter : Coder Parameter
parameter =
    by_way_of (both number (both number (option (list number))))
      (λ p. (p.name, (p.value, p.type_name)))
      (λ (n, (v, t)). record { name = n; value = v; type_name = t }) (λ p. refl)

retries : Coder RetryParameters
retries =
    by_way_of (both number (both number (both number (option number))))
      (λ p. (p.max_retries, (p.min_retry_wait, (p.retry_count, p.last_attempt))))
      (λ (m, (w, (c, l))). record {
        max_retries = m;
        min_retry_wait = w;
        retry_count = c;
        last_attempt = l;
      })
      (λ p. refl)

job : Coder FileJob
job =
    by_way_of
      (both (both (both number (list parameter)) (both number number)) (
        both (both (list number) (option retries)) (
          both (both (both number number) state)
            (both (both number number) (both number (option number))))))
      (λ q. (
        ((q.job_id, q.job_args), (q.type_executed_on, q.method_name)),
        (
          (q.method_generic_types, q.retry_parameters),
          (
            ((q.queue_name, q.created_on), q.status),
            ((q.queue_time, q.failure_time), (q.last_attempt_time, q.execution_time)),
          ),
        ),
      ))
      (λ (((i, a), (t, m)), ((g, r), (((n, c), s), ((x, y), (z, e))))). record {
        job_id = i;
        job_args = a;
        type_executed_on = t;
        method_name = m;
        method_generic_types = g;
        retry_parameters = r;
        queue_name = n;
        created_on = c;
        status = s;
        queue_time = x;
        failure_time = y;
        last_attempt_time = z;
        execution_time = e;
      })
      (λ q. refl)

-- A boxed `int` comes back as a `long`, which is another value.
as_long : ℕ → ℕ
as_long v = v + 1000

pub plain : Codec
plain = record {
  read_value = as_long;
  serialize = λ jobs. (list job).put (map (reloaded as_long) jobs);
  deserialize = λ t. (list job).get t >>= λ p. some p.0;
}

pub plain-IsCodec : IsCodec plain
unfolding plain
plain-IsCodec = record {
  reads = λ jobs.
      let text = (list job).put (map (reloaded as_long) jobs) in
      ap (λ (o : Option (List FileJob × Text)). o >>= λ p. some p.0)
        (ap (list job).get (sym (append-nil text))
          ∙ (list job).law (map (reloaded as_long) jobs) []);
}

pub plain-is_blank : (jobs : List FileJob) → is_blank (plain.serialize jobs) ≡ false
unfolding plain list
plain-is_blank jobs = refl
