-- ===== src/JobReader/Readable.antt =====
-- What GlutenFree.OddJob.Serializable/SerializableJobCreator.cs writes of a job, and what the reader of
-- BaseSqlJobQueueManager.cs makes of it again.
use odd_job.Prelude.{
  Text, ℕ, ◌+◌, ◌≤◌, ◌≡◌, ◌≢◌, refl, sym, ap, inl, inr, true, Option, none, some, List, [], ◌∷◌,
  map, arith, is_some,
}
use mathlib.Core.List.{Memᴰ}
use mathlib.Core.List.Memᴰ
use odd_job.SortedList.{All}
use odd_job.Grouping.Ordered.{Strict}
use odd_job.JobData.{RetryParameters, SerializedParameter, SerializableOddJob}
use odd_job.SqlStore.{new, ticks}
use odd_job.SqlQueue.{total_seconds}
use odd_job.SqlQueue.RoundTrip.{stored}
use odd_job.SqlQueue.Lists.{IsStorable}
use odd_job.JobSerializer.{
  Runtime, Parameter, OddJob, OddJobWithMetadata, map_all, get_core_assembly_name,
  unversioned_type_name, resolve_or_null, serialized_from, or_default, create_job_definition,
  resolved_parameter, resolved_job,
}
use odd_job.JobSerializer.Names.{replace_core_types-type_name}

module _ (rt : Runtime) where
  abbrev pub type_text : ℕ → Text
  type_text t = rt.without_version (rt.assembly_qualified_name t)

  -- The run time finds the type again by its name without the version, in which no percent sign is.
  pub record IsFound (t : ℕ) : Type 0 where
    pub plain : All (λ c. c ≢ 37) (type_text t)
    pub found : rt.get_type (type_text t) ≡ some (some t)

  -- A value that is not null, and that the JSON library reads back at its type.
  pub record IsReadBack (a : Parameter) : Type 0 where
    pub its_type : ℕ
    pub typed : rt.type_of a.value ≡ some its_type
    pub found : IsFound its_type
    pub read : rt.deserialize_object (rt.serialize_object a.value) (some its_type) ≡ some a.value

  abbrev name_at : Option ℕ → Option Text
  name_at none = none
  name_at (some t) = some (type_text t)

  -- An argument as it is read: with the name of its type.
  unfoldable pub read_parameter : Parameter → Parameter
  read_parameter a = record a { type_name = name_at (rt.type_of a.value) }

  -- A job as it is read.
  unfoldable pub read_back : OddJob → Option RetryParameters → Option ℕ → ℕ → OddJobWithMetadata
  read_back job retry_parameters execution_time queue_name =
      let retry = or_default retry_parameters in
      record {
        job_id = job.job_id;
        job_args = map read_parameter job.job_args;
        type_executed_on = some job.type_executed_on;
        method_name = job.method_name;
        status = new;
        method_generic_types = map some job.method_generic_types;
        retry_parameters = some record {
          max_retries = retry.max_retries;
          min_retry_wait = ticks (total_seconds retry.min_retry_wait);
          retry_count = 0;
          last_attempt = none;
        };
        execution_time = execution_time;
        queue = queue_name;
      }

  -- What is needed of the types and arguments of a job.
  pub record IsReadable (job : OddJob) : Type 0 where
    pub args : (a : Parameter) → Memᴰ a job.job_args → IsReadBack a
    pub executed_on : IsFound job.type_executed_on
    pub generics : (t : ℕ) → Memᴰ t job.method_generic_types → IsFound t

  module _ (core : get_core_assembly_name rt ≢ []) where
    resolved :
        (t : ℕ) → IsFound t → resolve_or_null rt (some (unversioned_type_name rt t)) ≡ some (some t)
    unfolding resolve_or_null
    resolved t f = rw (replace_core_types-type_name rt t core f.plain, f.found) refl

    generics_read :
        (ts : List ℕ)
        → ((t : ℕ) → Memᴰ t ts → IsFound t)
        → map_all (resolve_or_null rt) (map (λ t. some (unversioned_type_name rt t)) ts)
          ≡ some (map some ts)
    generics_read [] f = refl
    generics_read (t ∷ ts) f =
        rw (resolved t (f t (Memᴰ.head refl)), generics_read ts (λ u m. f u (Memᴰ.tail m))) refl

    -- The arguments of a job, as they are written and read.
    record Written (i : ℕ) (args : List Parameter) : Type 0 where
      params : List SerializedParameter
      made : serialized_from rt (unversioned_type_name rt) i args ≡ some params
      ordered : Strict (λ q. q.ordinal) params
      later : (q : SerializedParameter) → Memᴰ q params → i ≤ q.ordinal
      typed : (q : SerializedParameter) → Memᴰ q params → is_some q.type_name ≡ true
      read :
          map_all (resolved_parameter rt (resolve_or_null rt)) params
          ≡ some (map read_parameter args)

    args-Written :
        (i : ℕ) (args : List Parameter)
        → ((a : Parameter) → Memᴰ a args → IsReadBack a)
        → Written i args
    unfolding read_parameter
    args-Written i [] f = record {
      params = [];
      made = refl;
      ordered = tt;
      later = λ q m. absurd (Memᴰ.not-nil m);
      typed = λ q m. absurd (Memᴰ.not-nil m);
      read = refl;
    }
    args-Written i (a ∷ args) f =
        let b = f a (Memᴰ.head refl) in
        let w = args-Written (i + 1) args (λ c m. f c (Memᴰ.tail m)) in
        let q : SerializedParameter = record {
          ordinal = i;
          name = a.name;
          value = rt.serialize_object a.value;
          type_name = some (unversioned_type_name rt b.its_type);
        } in
        record {
          params = q ∷ w.params;
          made = rw (b.typed, w.made) refl;
          ordered = ((λ y m. let h = w.later y m in omega arith), w.ordered);
          later = λ y m. elim (Memᴰ.cases_cons m) [
            | inl e ↦ let h = ap (λ (v : SerializedParameter). v.ordinal) e in omega arith
            | inr n ↦ let h = w.later y n in omega arith
          ];
          typed = λ y m. elim (Memᴰ.cases_cons m) [
            | inl e ↦ ap (λ (v : SerializedParameter). is_some v.type_name) e
            | inr n ↦ w.typed y n
          ];
          read =
              rw
                (
                  resolved b.its_type b.found,
                  b.read,
                  replace_core_types-type_name rt b.its_type core b.found.plain,
                  b.typed,
                  w.read,
                )
                refl;
        }

    definition :
        OddJob
        → Option RetryParameters
        → Option ℕ
        → ℕ
        → List SerializedParameter
        → SerializableOddJob
    definition job retry_parameters execution_time queue_name params = record {
      job_id = job.job_id;
      job_args = params;
      type_executed_on = unversioned_type_name rt job.type_executed_on;
      method_name = job.method_name;
      status = new;
      method_generic_types = map (λ t. some (unversioned_type_name rt t)) job.method_generic_types;
      retry_parameters = some (or_default retry_parameters);
      execution_time = execution_time;
      queue_name = queue_name;
    }

    all_named :
        (ts : List ℕ) (q : Option Text)
        → Memᴰ q (map (λ t. some (unversioned_type_name rt t)) ts)
        → is_some q ≡ true
    all_named ts q m =
        let (t, n, e) = Memᴰ.of_map (λ t. some (unversioned_type_name rt t)) ts m in
        ap is_some (sym e)

    -- A definition and its reading, once its arguments are written.
    pub record Defined (job : OddJob) (retry_parameters : Option RetryParameters)
        (execution_time : Option ℕ) (queue_name : ℕ) : Type 0 where
      pub made : SerializableOddJob
      pub created :
          create_job_definition rt
            (unversioned_type_name rt)
            job
            retry_parameters
            execution_time
            queue_name
          ≡ some made
      pub same_guid : made.job_id ≡ job.job_id
      pub storable : IsStorable made
      pub read :
          resolved_job rt (resolve_or_null rt) (stored made)
          ≡ some (read_back job retry_parameters execution_time queue_name)

    pub job-Defined :
        (job : OddJob) (retry_parameters : Option RetryParameters) (execution_time : Option ℕ)
        (queue_name : ℕ)
        → IsReadable job
        → Defined job retry_parameters execution_time queue_name
    unfolding create_job_definition resolved_job stored read_back definition
    job-Defined job retry_parameters execution_time queue_name ok =
        let w = args-Written 0 job.job_args ok.args in
        record {
          made = definition job retry_parameters execution_time queue_name w.params;
          created = rw w.made refl;
          same_guid = refl;
          storable = record {
            ordered = w.ordered;
            typed = w.typed;
            named = all_named job.method_generic_types;
          };
          read =
              rw
                (
                  w.read,
                  generics_read job.method_generic_types ok.generics,
                  resolved job.type_executed_on ok.executed_on,
                )
                refl;
        }
