-- ===== src/Types/Errors/Wrapping.antt =====
-- `wrapUnknownError` of packages/types/src/errors.ts and `isOsqueueError`.
use osqueue.Base.{◌≡◌, refl, ◌⊎◌, inl, inr, String, true, false, some, string_eq, includes}
use osqueue.Types.Errors.{
  Tag, tag_name, Thrown, osqueue_error, foreign_tagged, native_error, other_value, TaggedError,
  tagged_error, Cause, is_tagged_error, wrap_unknown_error, is_osqueue_error, has_known_tag,
}

known_tag : (t : Tag) → has_known_tag (some (tag_name t)) ≡ true
unfolding has_known_tag includes string_eq
known_tag Tag.cas_conflict = refl
known_tag Tag.config = refl
known_tag Tag.discovery = refl
known_tag Tag.transport_config = refl
known_tag Tag.transport_request = refl
known_tag Tag.transport_connection = refl
known_tag Tag.storage_backend = refl
known_tag Tag.broker_leadership = refl
known_tag Tag.broker_protocol = refl
known_tag Tag.engine_state = refl
known_tag Tag.worker_execution = refl

known_error : (o : TaggedError) → is_osqueue_error (osqueue_error o) ≡ true
unfolding is_osqueue_error is_tagged_error
known_error (tagged_error t m d c) = known_tag t

-- Every error of one of the classes is recognized as an osqueue error, and so is what wrapping an
-- `Error` or a value without a tag gives.
pub wrap_unknown_error-IsKnown :
    (e : Thrown) (factory : String → Cause → TaggedError)
    → (is_tagged_error e ≡ false) ⊎ ((o : TaggedError) × (e ≡ osqueue_error o))
    → is_osqueue_error (wrap_unknown_error e factory) ≡ true
unfolding wrap_unknown_error is_tagged_error
wrap_unknown_error-IsKnown (osqueue_error o) factory h = known_error o
wrap_unknown_error-IsKnown (foreign_tagged t m text) factory (inl h) = absurd (cc)
wrap_unknown_error-IsKnown (foreign_tagged t m text) factory (inr (o, h)) = absurd (cc)
wrap_unknown_error-IsKnown (native_error m) factory h = known_error (factory _ _)
wrap_unknown_error-IsKnown (other_value text) factory h = known_error (factory _ _)
