-- ===== src/JobSerializer.antt =====
-- GlutenFree.OddJob.Serializable: a job made ready for a store and back, in SerializableJobCreator.cs,
-- UnversionedTypeSerializer.cs, VersionedTypeSerializer.cs, TargetPlatformHelpers.cs and the two
-- resolvers. The run time's reflection and the JSON library are a parameter. A type is a number, a
-- value too; an exception is an outer `none`.
pub mod Names
use odd_job.Prelude.{
  Text, ℕ, zero, suc, ◌+◌, ◌-◌, Bool, true, false, Option, none, some, List, [], ◌∷◌, ◌++◌, map,
  length, ◌==◌, if◌then◌else◌, ◌&&◌, ◌>>=◌,
}
use odd_job.JobData.{RetryParameters, SerializedParameter, SerializableOddJob}
use odd_job.SqlStore.{JobStates, new}

abbrev pub starts_with : Text → Text → Bool
starts_with [] s = true
starts_with (c ∷ p) [] = false
starts_with (c ∷ p) (d ∷ s) = (c == d) && starts_with p s

-- `String.Replace`: from the left, without overlap. The first number is how much of the text the
-- last occurrence still covers.
abbrev pub replace_from : ℕ → Text → Text → Text → Text
replace_from n old by [] = []
replace_from (suc n) old by (c ∷ s) = replace_from n old by s
replace_from zero old by (c ∷ s) =
    let found = by ++ replace_from (length old - 1) old by s in
    let rest = c ∷ replace_from zero old by s in if starts_with old (c ∷ s) then found else rest

abbrev pub replace : Text → Text → Text → Text
replace old by s = replace_from zero old by s

-- `%coretarget%`
abbrev pub core_lib_string : Text
core_lib_string = 37 ∷ 99 ∷ 111 ∷ 114 ∷ 101 ∷ 116 ∷ 97 ∷ 114 ∷ 103 ∷ 101 ∷ 116 ∷ 37 ∷ []

-- What the run time and the JSON library do.
pub record Runtime : Type 0 where
  -- `value.GetType()`; a null has none.
  pub type_of : ℕ → Option ℕ
  pub assembly_qualified_name : ℕ → Text
  -- `_assemblyRegex.Replace(name, "")`
  pub without_version : Text → Text
  -- `typeof(string).Assembly.FullName`
  pub core_assembly : Text
  -- `Type.GetType(name)`: an exception, null, or a type.
  pub get_type : Text → Option (Option ℕ)
  pub serialize_object : ℕ → ℕ
  pub deserialize_object : ℕ → Option ℕ → Option ℕ

-- `OddJobParameter`; the type's name is not set where a job is created.
pub record Parameter : Type 0 where
  pub name : ℕ
  pub value : ℕ
  pub type_name : Option Text

-- `OddJob`; its fields are those that a creator reads.
pub record OddJob : Type 0 where
  pub job_id : ℕ
  pub job_args : List Parameter
  pub type_executed_on : ℕ
  pub method_name : ℕ
  pub method_generic_types : List ℕ

-- `OddJobWithMetaData`, and `SqlDbOddJob`
pub record OddJobWithMetadata : Type 0 where
  pub job_id : ℕ
  pub job_args : List Parameter
  pub type_executed_on : Option ℕ
  pub method_name : ℕ
  pub status : JobStates
  pub method_generic_types : List (Option ℕ)
  pub retry_parameters : Option RetryParameters
  pub execution_time : Option ℕ
  pub queue : ℕ

abbrev pub map_all {ℓ κ} : {A : Type ℓ} {B : Type κ} → (A → Option B) → List A → Option (List B)
map_all f [] = some []
map_all f (x ∷ xs) = f x >>= λ y. map_all f xs >>= λ ys. some (y ∷ ys)

abbrev pub or_default : Option RetryParameters → RetryParameters
or_default (some r) = r
or_default none = record {
  max_retries = 0;
  min_retry_wait = 0;
  retry_count = 0;
  last_attempt = none;
}

-- A null name gives an exception.
abbrev pub of_name {ℓ} : {A : Type ℓ} → (Text → Option A) → Option Text → Option A
of_name f name = name >>= f

abbrev pub executable :
    (Option Text → Option (Option ℕ))
    → (SerializedParameter → Option Parameter)
    → SerializableOddJob
    → Option OddJobWithMetadata
executable resolve parameter q = map_all parameter q.job_args >>= λ args.
    map_all resolve q.method_generic_types >>= λ generics.
    resolve (some q.type_executed_on) >>= λ t. some record {
      job_id = q.job_id;
      job_args = args;
      type_executed_on = t;
      method_name = q.method_name;
      status = q.status;
      method_generic_types = generics;
      retry_parameters = q.retry_parameters;
      execution_time = q.execution_time;
      queue = q.queue_name;
    }

module _ (rt : Runtime) where
  abbrev pub get_core_assembly_name : Text
  get_core_assembly_name = rt.without_version rt.core_assembly

  unfoldable pub replace_core_types : Text → Text
  replace_core_types s = replace core_lib_string get_core_assembly_name s

  -- The two `GetTypeName`s, of a type that is not null.
  unfoldable pub unversioned_type_name : ℕ → Text
  unversioned_type_name t =
      replace get_core_assembly_name core_lib_string
        (rt.without_version (rt.assembly_qualified_name t))

  unfoldable pub versioned_type_name : ℕ → Text
  versioned_type_name t = rt.assembly_qualified_name t

  -- The two `GetTypeForJob`s. A null name is an exception within them.
  unfoldable pub resolve_or_throw : Option Text → Option (Option ℕ)
  resolve_or_throw name = of_name (λ s. rt.get_type (replace_core_types s)) name

  abbrev or_null : Option (Option ℕ) → Option ℕ
  or_null none = none
  or_null (some t) = t

  unfoldable pub resolve_or_null : Option Text → Option (Option ℕ)
  resolve_or_null name = some (or_null (of_name (λ s. rt.get_type (replace_core_types s)) name))

  abbrev pub serialized_parameter : (ℕ → Text) → ℕ → Parameter → Option SerializedParameter
  serialized_parameter type_name i a = rt.type_of a.value >>= λ t. some record {
    ordinal = i;
    name = a.name;
    value = rt.serialize_object a.value;
    type_name = some (type_name t);
  }

  abbrev pub serialized_from : (ℕ → Text) → ℕ → List Parameter → Option (List SerializedParameter)
  serialized_from type_name i [] = some []
  serialized_from type_name i (a ∷ args) = serialized_parameter type_name i a >>= λ q.
      serialized_from type_name (i + 1) args >>= λ qs. some (q ∷ qs)

  -- The names of the types come from the serializer that the caller gives, or the unversioned one.
  -- An argument that is null has no type to ask.
  unfoldable pub create_job_definition :
      (ℕ → Text) → OddJob → Option RetryParameters → Option ℕ → ℕ → Option SerializableOddJob
  create_job_definition type_name job retry_parameters execution_time queue_name =
      serialized_from type_name 0 job.job_args >>= λ args. some record {
        job_id = job.job_id;
        job_args = args;
        type_executed_on = type_name job.type_executed_on;
        method_name = job.method_name;
        status = new;
        method_generic_types = map (λ t. some (type_name t)) job.method_generic_types;
        retry_parameters = some (or_default retry_parameters);
        execution_time = execution_time;
        queue_name = queue_name;
      }

  abbrev executable_parameter : SerializedParameter → Option Parameter
  executable_parameter q = of_name rt.get_type q.type_name >>= λ t.
      rt.deserialize_object q.value t >>= λ v.
      some record { name = q.name; value = v; type_name = none }

  -- The types of the arguments are looked up without the resolver.
  unfoldable pub get_executable_job_definition :
      (Option Text → Option (Option ℕ)) → SerializableOddJob → Option OddJobWithMetadata
  get_executable_job_definition resolve job_data = executable resolve executable_parameter job_data

  -- An argument as `ExecuteJoinQuery` reads it.
  abbrev pub resolved_parameter :
      (Option Text → Option (Option ℕ)) → SerializedParameter → Option Parameter
  resolved_parameter resolve q = resolve q.type_name >>= λ t.
      rt.deserialize_object q.value t >>= λ v.
      of_name (λ s. some (replace_core_types s)) q.type_name >>= λ s.
      some record { name = q.name; value = v; type_name = some s }

  -- The columns of a job that `ExecuteJoinQuery` has grouped, as the job to execute.
  unfoldable pub resolved_job :
      (Option Text → Option (Option ℕ)) → SerializableOddJob → Option OddJobWithMetadata
  resolved_job resolve q = executable resolve (resolved_parameter resolve) q
