-- ===== src/Processing/File.antt =====
-- `processFile`: a job's file is downloaded twice, once to count its records and once to process them. Its two
-- deferred calls close the one variable `reader`, as it is at the end.
use Prim.Native.String.{String}
use hotel_reviews_microservi.Base.{ℕ, zero, suc, Option, none, some, List, [], ◌∷◌}
use hotel_reviews_microservi.Processing.Types.{
  Uuid, Bytes, FileError, invalid_url, existence_unknown, no_such_file, download_failed,
  redownload_failed, process_failed, ProcessingJob,
}
use hotel_reviews_microservi.Processing.Url.{parse_s3_url}

-- What `FileExists` answers.
pub data Existence : Type 0 where
  found missing : Existence
  existence_error : String → Existence

-- What `DownloadFile` answers: a reader, or an error with a nil reader.
pub data Download : Type 0 where
  opened : ℕ → Download
  download_error : String → Download

-- What the S3 client and the JSON processor answer for one run of a job: the interfaces `S3Client` and
-- `JSONProcessor`. The second download is a call of its own.
pub record Services : Type 0 where
  pub file_exists : Bytes → Bytes → Existence
  pub download_file : Bytes → Bytes → Download
  pub count_records : ℕ → Option ℕ
  pub download_file_again : Bytes → Bytes → Download
  pub process_records : ℕ → Uuid → Uuid → Option String

-- How a run ends, with the readers that were opened and those that were closed, in order. A nil reader
-- cannot be closed: that panics.
pub data Ended : Type 0 where
  finished : Option FileError → Ended
  panicked : Ended

pub record FileRun : Type 0 where
  pub ended : Ended
  pub records_total : ℕ
  pub opened_readers : List ℕ
  pub closed_readers : List ℕ

abbrev pub refuse : FileError → ℕ → FileRun
refuse e total = record {
  ended = finished (some e);
  records_total = total;
  opened_readers = [];
  closed_readers = [];
}

-- A failed count is only logged.
abbrev pub counted : Option ℕ → ℕ → ℕ
counted none total = total
counted (some n) total = n

abbrev pub processed : Option String → Option FileError
processed none = none
processed (some e) = some (process_failed e)

-- The variable `reader` after a download; `none` is nil.
abbrev pub reader_of : Download → Option ℕ
reader_of (opened reader) = some reader
reader_of (download_error e) = none

-- The deferred calls run: each closes what the variable holds then; `none` where one panics.
abbrev pub close_deferred : ℕ → Option ℕ → Option (List ℕ)
close_deferred zero reader = some []
close_deferred (suc calls) none = none
close_deferred (suc calls) (some reader) = elim (close_deferred calls (some reader)) [
  | none ↦ none
  | some closed ↦ some (reader ∷ closed)
]

-- `processFile` returns, with what is deferred and what the variable holds.
abbrev pub return_with : Option FileError → ℕ → List ℕ → ℕ → Option ℕ → FileRun
return_with e total opened_readers calls reader = elim (close_deferred calls reader) [
  | none ↦ record {
    ended = panicked;
    records_total = total;
    opened_readers = opened_readers;
    closed_readers = [];
  }
  | some closed ↦ record {
    ended = finished e;
    records_total = total;
    opened_readers = opened_readers;
    closed_readers = closed;
  }
]

module _ (services : Services) (id : Uuid) (job : ProcessingJob) where
  -- From the second download on: the first close is deferred, and where the download succeeds a second one.
  unfoldable pub process_again : ℕ → ℕ → Download → FileRun
  process_again first total (download_error e) =
      return_with (some (redownload_failed e)) total (first ∷ []) 1 (reader_of (download_error e))
  process_again first total (opened reader) =
      return_with (processed (services.process_records reader job.provider_id id)) total
        (first ∷ reader ∷ []) 2 (reader_of (opened reader))

  unfoldable pub process_download : Bytes → Bytes → Download → FileRun
  unfolding process_again
  process_download bucket key (download_error e) = refuse (download_failed e) job.records_total
  process_download bucket key (opened reader) =
      process_again reader (counted (services.count_records reader) job.records_total)
        (services.download_file_again bucket key)

  unfoldable pub process_existing : Bytes → Bytes → Existence → FileRun
  unfolding process_download
  process_existing bucket key (existence_error e) = refuse (existence_unknown e) job.records_total
  process_existing bucket key missing = refuse no_such_file job.records_total
  process_existing bucket key found =
      process_download bucket key (services.download_file bucket key)

  unfoldable pub process_parsed : Option (Bytes × Bytes) → FileRun
  unfolding process_existing
  process_parsed none = refuse invalid_url job.records_total
  process_parsed (some (bucket, key)) =
      process_existing bucket key (services.file_exists bucket key)

  unfoldable pub process_file : FileRun
  unfolding process_parsed
  process_file = process_parsed (parse_s3_url job.file_url)
