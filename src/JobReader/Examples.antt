-- ===== src/JobReader/Examples.antt =====
-- A job made ready, added and read with a small run time.
use odd_job.Prelude.{Text, ℕ, ◌+◌, ◌-◌, ◌≡◌, ◌≢◌, refl, ap, Option, none, some, [], ◌∷◌, arith}
use mathlib.Core.List.Memᴰ
use odd_job.JobData.{SerializableOddJob}
use odd_job.SqlStore.{has_guid}
use odd_job.SqlQueue.{Tables, add_job}
use odd_job.SqlQueue.Reading.{Arrangement, empty_object}
use odd_job.SqlQueue.RoundTrip.{IsArrangement, IsFresh}
use odd_job.JobSerializer.{
  Runtime, OddJob, get_core_assembly_name, unversioned_type_name, create_job_definition,
}
use odd_job.JobReader.{get_jobs_by_criteria}
use odd_job.JobReader.Readable.{IsFound, IsReadable, read_back}
use odd_job.JobReader.Created.{default_reader, create_job_definition-read}

first_letter : Text → Option (Option ℕ)
first_letter [] = none
first_letter (c ∷ s) = some (some (c - 65))

-- The types are named `A, L`, `B, L`, ... in a core library `L`.
abbrev letters : Runtime
letters = record {
  type_of = λ v. some 1;
  assembly_qualified_name = λ t. (t + 65) ∷ 44 ∷ 76 ∷ [];
  without_version = λ s. s;
  core_assembly = 76 ∷ [];
  get_type = first_letter;
  serialize_object = λ v. v + 100;
  deserialize_object = λ s t. some (s - 100);
}

has_core : get_core_assembly_name letters ≢ []
has_core e = ground arith

letters-IsFound : (t : ℕ) → IsFound letters t
unfolding first_letter
letters-IsFound t = record {
  plain = ((λ e. omega arith), ((λ e. omega arith), ((λ e. omega arith), tt)));
  found = ap (λ n. some (some n)) (omega arith);
}

abbrev job : OddJob
job = record {
  job_id = 20;
  job_args = record { name = 8; value = 9; type_name = none } ∷ [];
  type_executed_on = 3;
  method_name = 4;
  method_generic_types = 2 ∷ [];
}

job-IsReadable : IsReadable letters job
job-IsReadable = record {
  args = λ a m. record {
    its_type = 1;
    typed = refl;
    found = letters-IsFound 1;
    read = ap some (omega arith);
  };
  executed_on = letters-IsFound 3;
  generics = λ t m. letters-IsFound t;
}

abbrev no_tables : Tables
no_tables = record { rows = []; params = []; generics = [] }

job-IsFresh : IsFresh 1 20 no_tables
job-IsFresh = record {
  ids = λ r m. absurd (Memᴰ.not-nil m);
  rows = λ r m. absurd (Memᴰ.not-nil m);
  params = λ p m. absurd (Memᴰ.not-nil m);
  generics = λ g m. absurd (Memᴰ.not-nil m);
}

abbrev in_order : Arrangement
in_order = record { unmatched = empty_object; arrange = λ rows. rows }

in_order-IsArrangement : IsArrangement in_order
in_order-IsArrangement = record { same = λ q rows. ((λ m. m), (λ m. m)) }

create_job_definition-read_example :
    (made : SerializableOddJob) × (create_job_definition letters
        (unversioned_type_name letters)
        job
        none
        none
        5
      ≡ some made)
    × (get_jobs_by_criteria
          (default_reader letters in_order)
          (has_guid 20)
          (add_job 30 1 made no_tables)
        ≡ some (read_back letters job none none 5 ∷ []))
create_job_definition-read_example =
    create_job_definition-read letters in_order 30 1 job none none 5 no_tables has_core
      in_order-IsArrangement refl job-IsReadable job-IsFresh
