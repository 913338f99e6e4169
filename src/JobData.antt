-- ===== src/JobData.antt =====
-- The data of a job on its way to a store and back: OddJob/RetryParameters.cs and
-- GlutenFree.OddJob.Serializable's SerializableOddJob and OddJobSerializedParameter.
-- A guid, a name or a value is a number that stands for it; a null is `none` where there may be one.
-- Times and spans are ticks.
use odd_job.Prelude.{Text, ℕ, Option, List}
use odd_job.SqlStore.{JobStates}

pub record RetryParameters : Type 0 where
  pub max_retries : ℕ
  pub min_retry_wait : ℕ
  pub retry_count : ℕ
  pub last_attempt : Option ℕ

pub record SerializedParameter : Type 0 where
  pub ordinal : ℕ
  pub name : ℕ
  pub value : ℕ
  pub type_name : Option Text

pub record SerializableOddJob : Type 0 where
  pub job_id : ℕ
  pub job_args : List SerializedParameter
  pub type_executed_on : Text
  pub method_name : ℕ
  pub status : JobStates
  pub method_generic_types : List (Option Text)
  pub retry_parameters : Option RetryParameters
  pub execution_time : Option ℕ
  pub queue_name : ℕ
