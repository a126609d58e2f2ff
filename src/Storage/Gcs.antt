-- ===== src/Storage/Gcs.antt =====
-- packages/storage/src/gcs.ts: the backend on Google Cloud Storage. The bucket of the SDK is a
-- parameter: a record of the three calls that the backend makes on a file. What they do is stated
-- by the laws of Storage/Gcs/Service.
pub mod Service
pub mod Torn
use osqueue.Base.{
  ℕ, String, Bool, Option, none, some, if◌then◌else◌, ◌==◌, option_eq, number_eq, ◌<>◌, or_default,
}
use osqueue.Base.Decimal.{decimal, parse_int}
use osqueue.Types.{StorageVersion}
use osqueue.Types.Errors.{
  Tag, Thrown, osqueue_error, new_error, no_cause, Result, ok, thrown, wrap_unknown_error,
}
use osqueue.Storage.{StorageBackend, StorageReadResult}

-- What a call fails with: the error and its `code`.
pub record CallFailure : Type 0 where
  pub error : Thrown
  pub code : Option ℕ

pub data Call {ℓ} (A : Type ℓ) : Type ℓ where
  returned : A → Call A
  failed : CallFailure → Call A

-- The calls on the file of a key. `get_metadata` is read for the generation, and `save` is given
-- `ifGenerationMatch`, where `none` is NaN.
pub record Bucket (Bytes : Type 0) : Type 1 where
  pub State : Type 0
  pub download : String → State → Call Bytes × State
  pub get_metadata : String → State → Call ℕ × State
  pub save : String → Bytes → Option ℕ → State → Call (Unit {0}) × State

pub record GcsBackendOptions : Type 0 where
  pub bucket : String
  pub prefix : Option String

abbrev pub wrap_gcs : String → Thrown → Thrown
wrap_gcs what e =
    wrap_unknown_error e (λ message c. new_error Tag.storage_backend (what <> message) c)

-- The constructor, by what loading the SDK and opening the bucket come to; the backend is its
-- prefix.
unfoldable pub new_gcs_backend : GcsBackendOptions → Result (Unit {0}) → Result String
new_gcs_backend options (ok tt) = ok (or_default options.prefix "")
new_gcs_backend options (thrown e) = thrown (wrap_gcs "Failed to initialize GCS backend: " e)

abbrev pub generation_version : ℕ → StorageVersion
generation_version generation = record { token = decimal generation }

read_failed : {Bytes : Type 0} → CallFailure → Result (Option (StorageReadResult Bytes))
read_failed f =
    if f.code == some 404 then ok none else thrown (wrap_gcs "GCS read failed: " f.error)

-- The `catch` of `write` and `createIfNotExists`.
store_failed : String → String → CallFailure → Result StorageVersion
store_failed conflict what f =
    if f.code == some 412
    then thrown (osqueue_error (new_error Tag.cas_conflict conflict no_cause))
    else thrown (wrap_gcs what f.error)

module _ {Bytes : Type 0} (C : Bucket Bytes) (prefix : String) where
  open C use {State, download, get_metadata, save}

  abbrev pub file : String → String
  file key = prefix <> key

  with_generation : Bytes → Call ℕ × State → Result (Option (StorageReadResult Bytes)) × State
  unfolding read_failed
  with_generation bytes (returned g, s) =
      (ok (some (record { bytes = bytes; version = generation_version g })), s)
  with_generation bytes (failed f, s) = (read_failed f, s)

  downloaded : String → Call Bytes × State → Result (Option (StorageReadResult Bytes)) × State
  unfolding with_generation read_failed
  downloaded key (returned bytes, s) = with_generation bytes (get_metadata (file key) s)
  downloaded key (failed f, s) = (read_failed f, s)

  unfoldable pub gcs_read : String → State → Result (Option (StorageReadResult Bytes)) × State
  unfolding downloaded
  gcs_read key s = downloaded key (download (file key) s)

  stored_generation : String → String → Call ℕ × State → Result StorageVersion × State
  unfolding store_failed
  stored_generation conflict what (returned g, s) = (ok (generation_version g), s)
  stored_generation conflict what (failed f, s) = (store_failed conflict what f, s)

  saved : String → String → String → Call (Unit {0}) × State → Result StorageVersion × State
  unfolding stored_generation store_failed
  saved conflict what key (returned _, s) =
      stored_generation conflict what (get_metadata (file key) s)
  saved conflict what key (failed f, s) = (store_failed conflict what f, s)

  unfoldable pub gcs_write : String → Bytes → StorageVersion → State → Result StorageVersion × State
  unfolding saved
  gcs_write key bytes expected s =
      saved "GCS generation mismatch" "GCS write failed: " key
        (save (file key) bytes (parse_int expected.token) s)

  unfoldable pub gcs_create : String → Bytes → State → Result StorageVersion × State
  unfolding saved
  gcs_create key bytes s =
      saved "GCS object already exists" "GCS create failed: " key (save (file key) bytes (some 0) s)

  abbrev pub gcs_backend : StorageBackend Bytes
  gcs_backend = record {
    State = State;
    read = gcs_read;
    write = gcs_write;
    create_if_not_exists = gcs_create;
  }
