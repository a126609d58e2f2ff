-- ===== src/Storage/Memory.antt =====
-- packages/storage/src/memory.ts: the backend that keeps its objects in a `Map`.
pub mod Matches
pub mod Found
pub mod Shared
use osqueue.Base.{
  ℕ, ◌+◌, ◌≡◌, refl, ◌⊎◌, inl, inr, String, ◌<>◌, Bool, true, false, Option, none, some, List, [],
  ◌∷◌, arith, if◌then◌else◌, ◌==◌, string_eq, not,
}
use osqueue.Base.Decimal.{decimal}
use osqueue.Base.Dict.{Dict, lookup, insert}
use osqueue.Types.{StorageVersion}
use osqueue.Types.Errors.{
  Tag, Thrown, osqueue_error, Result, ok, thrown, new_error, no_cause, wrap_unknown_error,
}
use osqueue.Storage.{StorageBackend, StorageReadResult}

pub record StoredObject (Bytes : Type 0) : Type 0 where
  pub bytes : Bytes
  pub version : ℕ

-- `latencyMs` only delays an operation before its first access, so it takes no part here.
pub record MemoryBackend (Bytes : Type 0) : Type 0 where
  pub objects : Dict (StoredObject Bytes)
  pub fail_with : Option Thrown

abbrev pub cas_conflict_error : String → Thrown
cas_conflict_error message = osqueue_error (new_error Tag.cas_conflict message no_cause)

abbrev pub version_token : ℕ → StorageVersion
version_token v = record { token = decimal v }

maybe_delay : Option Thrown → Result (Unit {0})
maybe_delay none = ok tt
maybe_delay (some e) = thrown (
    wrap_unknown_error e
      (λ message c. new_error Tag.storage_backend ("Memory backend failure: " <> message) c))

module _ {Bytes : Type 0} where
  pub new_memory_backend : Option Thrown → MemoryBackend Bytes
  new_memory_backend fail_with = record { objects = []; fail_with = fail_with }

  -- Failures can be switched on and off while the program runs.
  pub set_options : Option Thrown → MemoryBackend Bytes → MemoryBackend Bytes
  set_options fail_with m = record m { fail_with = fail_with }

  unfoldable pub read_object : Option (StoredObject Bytes) → Option (StorageReadResult Bytes)
  read_object none = none
  read_object (some object) =
      some (record { bytes = object.bytes; version = version_token object.version })

  unfoldable pub read :
      String → MemoryBackend Bytes → Result (Option (StorageReadResult Bytes)) × MemoryBackend Bytes
  unfolding maybe_delay read_object lookup
  read key m = elim (maybe_delay m.fail_with) [
    | thrown e ↦ (thrown e, m)
    | ok _ ↦ (ok (read_object (lookup key m.objects)), m)
  ]

  unfoldable pub write_object :
      String
      → Bytes
      → StorageVersion
      → MemoryBackend Bytes
      → Option (StoredObject Bytes)
      → Result StorageVersion × MemoryBackend Bytes
  write_object key bytes expected m none =
      (thrown (cas_conflict_error "Object not found for CAS write"), m)
  write_object key bytes expected m (some object) =
      if not (decimal object.version == expected.token)
      then (
        thrown (
            cas_conflict_error
              ("Expected version " <> expected.token <> ", got " <> decimal object.version)),
        m,
      )
      else (
        ok (version_token (object.version + 1)),
        record m {
          objects = insert key (record { bytes = bytes; version = object.version + 1 }) m.objects;
        },
      )

  unfoldable pub write :
      String
      → Bytes
      → StorageVersion
      → MemoryBackend Bytes
      → Result StorageVersion × MemoryBackend Bytes
  unfolding maybe_delay write_object lookup insert
  write key bytes expected m = elim (maybe_delay m.fail_with) [
    | thrown e ↦ (thrown e, m)
    | ok _ ↦ write_object key bytes expected m (lookup key m.objects)
  ]

  create_object :
      String
      → Bytes
      → MemoryBackend Bytes
      → Option (StoredObject Bytes)
      → Result StorageVersion × MemoryBackend Bytes
  create_object key bytes m (some object) = (thrown (cas_conflict_error "Object already exists"), m)
  create_object key bytes m none = (
    ok (version_token 1),
    record m { objects = insert key (record { bytes = bytes; version = 1 }) m.objects },
  )

  unfoldable pub create_if_not_exists :
      String → Bytes → MemoryBackend Bytes → Result StorageVersion × MemoryBackend Bytes
  unfolding maybe_delay create_object lookup insert
  create_if_not_exists key bytes m = elim (maybe_delay m.fail_with) [
    | thrown e ↦ (thrown e, m)
    | ok _ ↦ create_object key bytes m (lookup key m.objects)
  ]

abbrev pub memory_backend : (Bytes : Type 0) → StorageBackend Bytes
memory_backend Bytes = record {
  State = MemoryBackend Bytes;
  read = read;
  write = write;
  create_if_not_exists = create_if_not_exists;
}
