-- ===== src/Storage/Memory/Found.antt =====
-- The calls of packages/storage/src/memory.ts on an object that is there, while the backend does not
-- fail.
use osqueue.Base.{
  ◌+◌, ◌≡◌, refl, sym, ap, subst, ◌∙◌, String, true, false, ◌<>◌, none, some, ◌==◌, string_eq,
  ==_refl,
}
use osqueue.Base.Decimal.{decimal}
use osqueue.Base.Dict.{lookup, insert}
use osqueue.Types.{StorageVersion}
use osqueue.Types.Errors.{Thrown, ok, thrown}
use osqueue.Storage.Memory
use osqueue.Storage.Memory.{
  MemoryBackend, StoredObject, version_token, read_object, write_object, cas_conflict_error,
}

unfoldable pub mismatch : {Bytes : Type 0} → StorageVersion → StoredObject Bytes → Thrown
mismatch v object =
    cas_conflict_error ("Expected version " <> v.token <> ", got " <> decimal object.version)

module _ {Bytes : Type 0} (key : String) where
  pub write-write_object :
      (bytes : Bytes) (v : StorageVersion) (m : MemoryBackend Bytes) (object : StoredObject Bytes)
      → m.fail_with ≡ none
      → lookup key m.objects ≡ some object
      → Memory.write key bytes v m ≡ write_object key bytes v m (some object)
  unfolding Memory.write
  write-write_object bytes v m object up held =
      subst
        (λ m'. Memory.write key bytes v m' ≡ write_object key bytes v m' (lookup key m'.objects))
        (ap (λ f. record m { fail_with = f }) (sym up)) refl
      ∙ ap (write_object key bytes v m) held

  unfoldable pub placed : Bytes → StoredObject Bytes → MemoryBackend Bytes → MemoryBackend Bytes
  placed bytes object m = record m {
    objects = insert key (record { bytes = bytes; version = object.version + 1 }) m.objects;
  }

  pub write_object-current :
      (bytes : Bytes) (m : MemoryBackend Bytes) (object : StoredObject Bytes)
      → write_object key bytes (version_token object.version) m (some object)
        ≡ (ok (version_token (object.version + 1)), placed bytes object m)
  unfolding write_object placed
  write_object-current bytes m object = rw (==_refl (decimal object.version)) refl

  pub read-read_object :
      (m : MemoryBackend Bytes) (object : StoredObject Bytes)
      → m.fail_with ≡ none
      → lookup key m.objects ≡ some object
      → Memory.read key m
        ≡ (ok (some record { bytes = object.bytes; version = version_token object.version }), m)
  unfolding Memory.read read_object
  read-read_object m object up held =
      subst (λ m'. Memory.read key m' ≡ (ok (read_object (lookup key m'.objects)), m'))
        (ap (λ f. record m { fail_with = f }) (sym up)) refl
      ∙ ap (λ o. (ok (read_object o), m)) held

  pub write_object-same :
      (bytes : Bytes) (v : StorageVersion) (m : MemoryBackend Bytes) (object : StoredObject Bytes)
      → (decimal object.version == v.token) ≡ true
      → write_object key bytes v m (some object)
        ≡ (ok (version_token (object.version + 1)), placed bytes object m)
  unfolding write_object placed
  write_object-same bytes v m object e = rw (e, write_object) refl

  pub write_object-differs :
      (bytes : Bytes) (v : StorageVersion) (m : MemoryBackend Bytes) (object : StoredObject Bytes)
      → (decimal object.version == v.token) ≡ false
      → write_object key bytes v m (some object) ≡ (thrown (mismatch v object), m)
  unfolding write_object mismatch
  write_object-differs bytes v m object e = rw (e, write_object) refl
