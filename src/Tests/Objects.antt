-- ===== src/Tests/Objects.antt =====
-- A service that keeps one object as S3 documents it, and the backend on it.
use osqueue.Base.{
  inl, inr, ℕ, ◌≡◌, refl, String, List, [], ◌∷◌, ◌++◌, Option, none, some, if◌then◌else◌, ◌==◌,
  string_eq, ==→≡, Extends, Extends-refl, Extends-append, Bool-cases,
}
use osqueue.Types.Errors.{native_error}
use osqueue.Storage.Journal.{IsJournaled}
use osqueue.Storage.S3.{
  Failure, Response, answered, failed, GetObjectOutput, S3Client, S3Backend, new_s3_backend,
  s3_backend,
}
use osqueue.Storage.S3.Service.{ObjectView, KeepsObject}
use osqueue.Storage.S3.Journaled.{s3_view, s3-IsJournaled}

-- The object, if there is one: its earlier contents and the last. An entity tag is the content.
abbrev Object : Type 0
Object = Option (List String × String)

abbrev contents_of : Object → List String
contents_of none = []
contents_of (some (earlier, last)) = earlier ++ last ∷ []

abbrev failure : String → ℕ → Failure
failure name status = record {
  error = native_error name;
  name = some name;
  http_status = some status;
}

abbrev get : Object → Response (GetObjectOutput String) × Object
get none = (failed (failure "NoSuchKey" 404), none)
get (some (earlier, last)) = (answered (record { body = last; etag = last }), some (earlier, last))

abbrev put : Option String → Option String → String → Object → Response String × Object
put none none body none = (answered body, some ([], body))
put none (some t) body none = (answered body, some ([], body))
put (some t) n body none = (failed (failure "NoSuchKey" 404), none)
put none none body (some (earlier, last)) = (answered body, some (earlier ++ last ∷ [], body))
put none (some t) body (some (earlier, last)) =
    (failed (failure "PreconditionFailed" 412), some (earlier, last))
put (some t) n body (some (earlier, last)) =
    if t == last
    then (answered body, some (earlier ++ last ∷ [], body))
    else (failed (failure "PreconditionFailed" 412), some (earlier, last))

abbrev service : S3Client String
service = record {
  State = Object;
  get_object = λ i s. get s;
  put_object = λ i s. put i.if_match i.if_none_match i.body s;
}

abbrev object_view : ObjectView service
object_view = record { IsValid = λ s. Unit {0}; contents = contents_of; etag = λ b. b }

put-Extends :
    (m n : Option String) (body : String) (s : Object)
    → Extends (contents_of s) (contents_of (put m n body s).1)
put-Extends none none body none = Extends-append [] _
put-Extends none (some t) body none = Extends-append [] _
put-Extends (some t) n body none = Extends-refl _
put-Extends none none body (some (earlier, last)) = Extends-append _ _
put-Extends none (some t) body (some (earlier, last)) = Extends-refl _
put-Extends (some t) n body (some (earlier, last)) = elim (Bool-cases (t == last)) [
  | inl c ↦ rw (c, put) (Extends-append _ _)
  | inr c ↦ rw (c, put) (Extends-refl _)
]

put-matching :
    (m n : Option String) (t body e : String) (s : Object)
    → m ≡ some t
    → (put m n body s).0 ≡ answered e
    → (earlier : List String) × (base : String) × Extends (contents_of s) (earlier ++ base ∷ [])
      × (t ≡ base)
      × (contents_of (put m n body s).1 ≡ (earlier ++ base ∷ []) ++ body ∷ [])
      × (e ≡ body)
put-matching none n t body e s q h = absurd (cc)
put-matching (some u) n t body e none q h = absurd (cc)
put-matching (some u) n t body e (some (earlier, last)) q h = elim (Bool-cases (u == last)) [
  | inl c ↦
      let same = ==→≡ u last c in
      let done = rw (c, put) at h in rw (c, put) (earlier, last, Extends-refl _, cc, refl, cc)
  | inr c ↦ let bad = rw (c, put) at h in absurd (cc)
]

put-founding :
    (m n : Option String) (body e : String) (s : Object)
    → m ≡ none
    → n ≡ some "*"
    → (put m n body s).0 ≡ answered e
    → (contents_of s ≡ []) × (contents_of (put m n body s).1 ≡ body ∷ []) × (e ≡ body)
put-founding none none body e none q p h = absurd (cc)
put-founding none (some t) body e none q p h = (refl, refl, cc)
put-founding none none body e (some (earlier, last)) q p h = absurd (cc)
put-founding none (some t) body e (some (earlier, last)) q p h = absurd (cc)
put-founding (some t) n body e s q p h = absurd (cc)

abbrev backend : S3Backend
backend = new_s3_backend (record { bucket = "jobs"; prefix = some "q/" })

get-last :
    (s : Object) (r : GetObjectOutput String)
    → (get s).0 ≡ answered r
    → (earlier : List String) × (contents_of (get s).1 ≡ earlier ++ r.body ∷ []) × (r.etag ≡ r.body)
get-last none r h = absurd (cc)
get-last (some (earlier, last)) r h = (earlier, cc, cc)

get-same : (s : Object) → contents_of (get s).1 ≡ contents_of s
get-same none = refl
get-same (some (earlier, last)) = refl

service-KeepsObject : KeepsObject service "jobs" "q/queue.json" object_view
service-KeepsObject = record {
  etag-injective = λ x y e. e;
  get-IsValid = λ s h. tt;
  put-IsValid = λ i s b k h. tt;
  get_extends = λ s h. rw (get-same s) (Extends-refl _);
  put_extends = λ i s b k h. put-Extends i.if_match i.if_none_match i.body s;
  get-answered = λ s r h e. get-last s r e;
  put-if_match = λ i s t e b k m n h a. put-matching i.if_match i.if_none_match t i.body e s m a;
  put-if_none_match = λ i s e b k m n h a. put-founding i.if_match i.if_none_match i.body e s m n a;
}

s3-IsJournaled_example :
    IsJournaled
      (s3_backend service backend)
      "queue.json"
      (s3_view service backend "queue.json" object_view service-KeepsObject)
s3-IsJournaled_example = s3-IsJournaled service backend "queue.json" object_view service-KeepsObject
