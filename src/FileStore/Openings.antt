-- ===== src/FileStore/Openings.antt =====
-- The loops of OddJob.Storage.FileSystem that open the file, and what its JSON library keeps of a job.
use odd_job.Prelude.{ℕ, zero, suc, ◌≡◌, refl, Option, some, List, [], ◌∷◌, ◌++◌, map, Text}
use odd_job.JobSerializer.{Parameter}
use odd_job.FileStore.{
  FileJob, Codec, Opening, busy, failing, opened, waiting, thrown, finish, keep_trying,
}

abbrev pub sharing_violations : ℕ → List Opening
sharing_violations zero = []
sharing_violations (suc n) = busy ∷ sharing_violations n

-- A sharing violation changes nothing but the number of openings.
pub try_again :
    {A : Type 0} (body : Option Text → Option (A × Text)) (n : ℕ) (file : Option Text)
    (openings : List Opening)
    → (keep_trying body (sharing_violations n) ≡ waiting)
      × ((keep_trying body (sharing_violations n ++ failing ∷ openings) ≡ thrown)
          × (keep_trying body (sharing_violations n ++ opened file ∷ openings)
              ≡ finish (body file)))
unfolding keep_trying
try_again body zero file openings = (refl, (refl, refl))
try_again body (suc n) file openings = try_again body n file openings

-- What a value of no fixed type, as an argument is, comes back as: a boxed `int` as a `long`, say.
abbrev pub read_parameter : (ℕ → ℕ) → Parameter → Parameter
read_parameter read_value a = record a { value = read_value a.value }

-- The library writes each property, and sets none that has no public setter.
abbrev pub reloaded : (ℕ → ℕ) → FileJob → FileJob
reloaded read_value q = record q {
  job_args = map (read_parameter read_value) q.job_args;
  queue_time = 0;
  failure_time = 0;
  last_attempt_time = 0;
}

pub record IsCodec (codec : Codec) : Type 0 where
  pub reads :
      (jobs : List FileJob)
      → codec.deserialize (codec.serialize jobs) ≡ some (map (reloaded codec.read_value) jobs)
