-- ===== src/Storage/S3.antt =====
-- packages/storage/src/s3.ts: the backend on Amazon S3. The SDK's client is a parameter: a record of
-- the two requests that the backend sends, with the reading of a response's body as part of the
-- first. What the requests do is stated by the laws of Storage/S3/Service.
pub mod Service
pub mod Journaled
use osqueue.Base.{
  ℕ, String, Bool, ◌||◌, Option, none, some, if◌then◌else◌, ◌==◌, option_eq, string_eq, number_eq,
  ◌<>◌, or_default,
}
use osqueue.Types.{StorageVersion}
use osqueue.Types.Errors.{
  Tag, Thrown, osqueue_error, new_error, no_cause, Result, ok, thrown, wrap_unknown_error,
}
use osqueue.Storage.{StorageBackend, StorageReadResult}

-- What a request fails with: the error, its `name` and its `$metadata.httpStatusCode`.
pub record Failure : Type 0 where
  pub error : Thrown
  pub name : Option String
  pub http_status : Option ℕ

pub data Response {ℓ} (A : Type ℓ) : Type ℓ where
  answered : A → Response A
  failed : Failure → Response A

pub record GetObjectInput : Type 0 where
  pub bucket : String
  pub key : String

pub record GetObjectOutput (Bytes : Type 0) : Type 0 where
  pub body : Bytes
  pub etag : String

pub record PutObjectInput (Bytes : Type 0) : Type 0 where
  pub bucket : String
  pub key : String
  pub body : Bytes
  pub content_type : String
  pub if_match : Option String
  pub if_none_match : Option String

pub record S3Client (Bytes : Type 0) : Type 1 where
  pub State : Type 0
  pub get_object : GetObjectInput → State → Response (GetObjectOutput Bytes) × State
  pub put_object : PutObjectInput Bytes → State → Response String × State

pub record S3BackendOptions : Type 0 where
  pub bucket : String
  pub prefix : Option String

pub record S3Backend : Type 0 where
  pub bucket : String
  pub prefix : String

abbrev pub new_s3_backend : S3BackendOptions → S3Backend
new_s3_backend options = record { bucket = options.bucket; prefix = or_default options.prefix "" }

abbrev pub full_key : S3Backend → String → String
full_key b key = b.prefix <> key

abbrev pub is_missing : Failure → Bool
is_missing f = f.name == some "NoSuchKey" || f.http_status == some 404

abbrev pub is_precondition_failed : Failure → Bool
is_precondition_failed f = f.name == some "PreconditionFailed" || f.http_status == some 412

abbrev pub wrap_s3 : String → Thrown → Thrown
wrap_s3 what e =
    wrap_unknown_error e (λ message c. new_error Tag.storage_backend (what <> message) c)

-- The end of `read`, in its `try` and in its `catch`.
unfoldable pub read_response :
    {Bytes : Type 0} → Response (GetObjectOutput Bytes) → Result (Option (StorageReadResult Bytes))
read_response (answered r) =
    ok (some (record { bytes = r.body; version = record { token = r.etag } }))
read_response (failed f) =
    if is_missing f then ok none else thrown (wrap_s3 "S3 read failed: " f.error)

-- The ends of `write` and `createIfNotExists`, with the text of a conflict and that of a failure.
unfoldable pub put_response : String → String → Response String → Result StorageVersion
put_response conflict what (answered etag) = ok (record { token = etag })
put_response conflict what (failed f) =
    if is_precondition_failed f
    then thrown (osqueue_error (new_error Tag.cas_conflict conflict no_cause))
    else thrown (wrap_s3 what f.error)

module _ {Bytes : Type 0} (C : S3Client Bytes) (b : S3Backend) where
  open C use {State, get_object, put_object}

  unfoldable pub s3_read : String → State → Result (Option (StorageReadResult Bytes)) × State
  s3_read key s =
      let (response, s') = get_object (record { bucket = b.bucket; key = full_key b key }) s in
      (read_response response, s')

  abbrev pub write_input : String → Bytes → StorageVersion → PutObjectInput Bytes
  write_input key bytes expected = record {
    bucket = b.bucket;
    key = full_key b key;
    body = bytes;
    content_type = "application/json";
    if_match = some expected.token;
    if_none_match = none;
  }

  unfoldable pub s3_write : String → Bytes → StorageVersion → State → Result StorageVersion × State
  s3_write key bytes expected s =
      let (response, s') = put_object (write_input key bytes expected) s in
      (put_response "S3 ETag mismatch" "S3 write failed: " response, s')

  abbrev pub create_input : String → Bytes → PutObjectInput Bytes
  create_input key bytes = record {
    bucket = b.bucket;
    key = full_key b key;
    body = bytes;
    content_type = "application/json";
    if_match = none;
    if_none_match = some "*";
  }

  unfoldable pub s3_create : String → Bytes → State → Result StorageVersion × State
  s3_create key bytes s =
      let (response, s') = put_object (create_input key bytes) s in
      (put_response "S3 object already exists" "S3 create failed: " response, s')

  abbrev pub s3_backend : StorageBackend Bytes
  s3_backend = record {
    State = State;
    read = s3_read;
    write = s3_write;
    create_if_not_exists = s3_create;
  }
