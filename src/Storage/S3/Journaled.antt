-- ===== src/Storage/S3/Journaled.antt =====
-- The backend of packages/storage/src/s3.ts against the promise of Storage/Journal.
use osqueue.Base.{
  ℕ, ◌≡◌, refl, sym, ◌∙◌, inl, inr, String, List, [], ◌∷◌, ◌++◌, some, length, get_elem?,
  get_elem?-split, get_elem?-Extends, Bool-cases,
}
use osqueue.Types.{StorageVersion}
use osqueue.Types.Errors.{ok}
use osqueue.Storage.{StorageReadResult}
use osqueue.Storage.Journal.{JournalView, IsJournaled}
use osqueue.Storage.S3.{
  Response, answered, failed, GetObjectOutput, S3Client, S3Backend, full_key, is_missing,
  is_precondition_failed, read_response, put_response, s3_read, s3_write, s3_create, s3_backend,
  write_input, create_input,
}
use osqueue.Storage.S3.Service.{ObjectView, KeepsObject}

read_response-some :
    {Bytes : Type 0} (response : Response (GetObjectOutput Bytes)) (r : StorageReadResult Bytes)
    → read_response response ≡ ok (some r)
    → (out : GetObjectOutput Bytes) × (response ≡ answered out)
      × (r.bytes ≡ out.body)
      × (r.version ≡ record { token = out.etag })
unfolding read_response
read_response-some (answered out) r e = (out, refl, cc, cc)
read_response-some (failed f) r e = elim (Bool-cases (is_missing f)) [
  | inl c ↦ let bad = rw (c, read_response) at e in absurd (cc)
  | inr c ↦ let bad = rw (c, read_response) at e in absurd (cc)
]

put_response-ok :
    (conflict what : String) (response : Response String) (v : StorageVersion)
    → put_response conflict what response ≡ ok v
    → response ≡ answered v.token
unfolding put_response
put_response-ok conflict what (answered etag) v e = cc
put_response-ok conflict what (failed f) v e = elim (Bool-cases (is_precondition_failed f)) [
  | inl c ↦ let bad = rw (c, put_response) at e in absurd (cc)
  | inr c ↦ let bad = rw (c, put_response) at e in absurd (cc)
]

module _ {Bytes : Type 0} (C : S3Client Bytes) (b : S3Backend) (key : String) (V : ObjectView C)
    (K : KeepsObject C b.bucket (full_key b key) V) where
  -- A version names the content whose entity tag it holds.
  abbrev pub s3_view : JournalView (s3_backend C b)
  s3_view = record {
    IsValid = V.IsValid;
    journal = V.contents;
    Names = λ journal v bytes.
        (v.token ≡ V.etag bytes) × ((k : ℕ) × (get_elem? journal k ≡ some bytes));
  }

  in_last :
      (journal earlier : List Bytes) (bytes : Bytes)
      → journal ≡ earlier ++ bytes ∷ []
      → (k : ℕ) × (get_elem? journal k ≡ some bytes)
  in_last journal earlier bytes e = (length earlier, rw e (get_elem?-split earlier bytes []))

  -- If the service documents of S3 hold for the object of the key, the backend meets the contract
  -- of a journal: the contents of the object are the journal, and a version names a content by its
  -- entity tag.
  pub s3-IsJournaled : IsJournaled (s3_backend C b) key s3_view
  unfolding s3_read s3_write s3_create
  s3-IsJournaled = record {
    Names-unique = λ j v x y (e, _) (e', _). K.etag-injective x y (sym e ∙ e');
    Names-Extends = λ old new v x ext (e, (k, at)). (e, (k, get_elem?-Extends old new k x ext at));
    Names-held = λ j v x (e, held). held;
    read-IsValid = λ s h. K.get-IsValid s h;
    write-IsValid = λ s bytes v h. K.put-IsValid (write_input C b key bytes v) s refl refl h;
    create-IsValid = λ s bytes h. K.put-IsValid (create_input C b key bytes) s refl refl h;
    read_extends = λ s h. K.get_extends s h;
    write_extends = λ s bytes v h. K.put_extends (write_input C b key bytes v) s refl refl h;
    create_extends = λ s bytes h. K.put_extends (create_input C b key bytes) s refl refl h;
    read-some = λ s r h e.
        let (out, answer, body, version) = read_response-some _ r e in
        let (earlier, last, tag) = K.get-answered s out h answer in
        (rw (version, body) tag, in_last _ earlier r.bytes (rw body last));
    write-ok = λ s bytes v v' h e.
        let answer = put_response-ok _ _ _ v' e in
        let (earlier, base, since, named, added, tag) =
          K.put-if_match (write_input C b key bytes v) s v.token v'.token refl refl refl refl h
            answer in
        record {
          earlier = earlier;
          base = base;
          since = since;
          named = (named, in_last _ earlier base refl);
          added = added;
          returned = (tag, in_last _ (earlier ++ base ∷ []) bytes added);
        };
    create-ok = λ s bytes v h e.
        let answer = put_response-ok _ _ _ v e in
        let (none_before, added, tag) =
          K.put-if_none_match (create_input C b key bytes) s v.token refl refl refl refl h answer in
        (none_before, added, (tag, in_last _ [] bytes refl));
  }
