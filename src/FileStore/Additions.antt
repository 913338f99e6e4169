-- ===== src/FileStore/Additions.antt =====
-- A job from OddJob.Storage.FileSystem/FileSystemJobQueueAdder.cs to the reader of
-- FileSystemJobQueueManager.cs.
use odd_job.Prelude.{◌≡◌, ◌⊎◌, true, false, Option, some, List, [], Text}
use odd_job.FileStore.{FileJob, Codec, content_of}
use odd_job.FileStore.Adding.{is_blank}

-- The jobs that the adder finds: none where there is no file or an empty one.
abbrev pub Holds : Codec → Option Text → List FileJob → Type 0
Holds codec file jobs =
    ((is_blank (content_of file) ≡ true) × (jobs ≡ []))
    ⊎ ((is_blank (content_of file) ≡ false) × (codec.deserialize (content_of file) ≡ some jobs))
