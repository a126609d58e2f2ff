-- ===== src/Storage/S3/Service.antt =====
-- What S3 documents of the requests of packages/storage/src/s3.ts for one object that is never
-- deleted: its successive contents, conditional writes, and entity tags.
use osqueue.Base.{◌≡◌, String, List, [], ◌∷◌, ◌++◌, none, some, Extends}
use osqueue.Storage.S3.{Response, answered, GetObjectOutput, PutObjectInput, S3Client}

module _ {Bytes : Type 0} where
  -- A state of the service as the contents of the object, oldest first; `etag` is what the service
  -- makes of a content.
  pub record ObjectView (C : S3Client Bytes) : Type 1 where
    pub IsValid : C.State → Type 0
    pub contents : C.State → List Bytes
    pub etag : Bytes → String

  abbrev pub Get :
      (C : S3Client Bytes) → String → String → C.State → Response (GetObjectOutput Bytes) × C.State
  Get C bucket key s = C.get_object (record { bucket = bucket; key = key }) s

  pub record KeepsObject (C : S3Client Bytes) (bucket key : String) (V : ObjectView C)
      : Type 0 where
    -- Different contents have different entity tags.
    pub etag-injective : (x y : Bytes) → V.etag x ≡ V.etag y → x ≡ y
    pub get-IsValid : (s : C.State) → V.IsValid s → V.IsValid (Get C bucket key s).1
    pub put-IsValid :
        (i : PutObjectInput Bytes) (s : C.State)
        → i.bucket ≡ bucket
        → i.key ≡ key
        → V.IsValid s
        → V.IsValid (C.put_object i s).1
    -- Contents are added by this client and by others, and none is taken back.
    pub get_extends :
        (s : C.State) → V.IsValid s → Extends (V.contents s) (V.contents (Get C bucket key s).1)
    pub put_extends :
        (i : PutObjectInput Bytes) (s : C.State)
        → i.bucket ≡ bucket
        → i.key ≡ key
        → V.IsValid s
        → Extends (V.contents s) (V.contents (C.put_object i s).1)
    -- A read returns the last content, with its entity tag.
    pub get-answered :
        (s : C.State) (r : GetObjectOutput Bytes)
        → V.IsValid s
        → (Get C bucket key s).0 ≡ answered r
        → (earlier : List Bytes) × (V.contents (Get C bucket key s).1 ≡ earlier ++ r.body ∷ [])
          × (r.etag ≡ V.etag r.body)
    -- `If-Match` lets a write through only onto a content with that entity tag.
    pub put-if_match :
        (i : PutObjectInput Bytes) (s : C.State) (expected e : String)
        → i.bucket ≡ bucket
        → i.key ≡ key
        → i.if_match ≡ some expected
        → i.if_none_match ≡ none
        → V.IsValid s
        → (C.put_object i s).0 ≡ answered e
        → (earlier : List Bytes) × (base : Bytes) × Extends (V.contents s) (earlier ++ base ∷ [])
          × (expected ≡ V.etag base)
          × (V.contents (C.put_object i s).1 ≡ (earlier ++ base ∷ []) ++ i.body ∷ [])
          × (e ≡ V.etag i.body)
    -- `If-None-Match: *` lets a write through only if there is no object.
    pub put-if_none_match :
        (i : PutObjectInput Bytes) (s : C.State) (e : String)
        → i.bucket ≡ bucket
        → i.key ≡ key
        → i.if_match ≡ none
        → i.if_none_match ≡ some "*"
        → V.IsValid s
        → (C.put_object i s).0 ≡ answered e
        → (V.contents s ≡ [])
          × (V.contents (C.put_object i s).1 ≡ i.body ∷ [])
          × (e ≡ V.etag i.body)
