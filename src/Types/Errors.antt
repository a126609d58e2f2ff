-- ===== src/Types/Errors.antt =====
-- packages/types/src/errors.ts: the tagged errors, what can be thrown, and the wrapping of it.
pub mod Wrapping
use osqueue.Base.{ℕ, String, List, [], ◌∷◌, Option, none, some, Bool, true, false, ◌&&◌, includes}
use osqueue.Base.{string_eq}

-- The classes of `OsqueueError`.
pub data Tag : Type 0 where
  cas_conflict config discovery transport_config transport_request transport_connection : Tag
  storage_backend broker_leadership broker_protocol engine_state worker_execution : Tag

-- The literal `_tag` of a class.
abbrev pub tag_name : Tag → String
tag_name Tag.cas_conflict = "CASConflictError"
tag_name Tag.config = "ConfigError"
tag_name Tag.discovery = "DiscoveryError"
tag_name Tag.transport_config = "TransportConfigError"
tag_name Tag.transport_request = "TransportRequestError"
tag_name Tag.transport_connection = "TransportConnectionError"
tag_name Tag.storage_backend = "StorageBackendError"
tag_name Tag.broker_leadership = "BrokerLeadershipError"
tag_name Tag.broker_protocol = "BrokerProtocolError"
tag_name Tag.engine_state = "EngineStateError"
tag_name Tag.worker_execution = "WorkerExecutionError"

-- The fields that some of the classes add.
pub record Details : Type 0 where
  pub method : Option String
  pub path : Option String
  pub status : Option ℕ
  pub remote_tag : Option String
  pub leader : Option String

-- What a `catch` may receive: an error of one of the classes, another object with a text `_tag`
-- (the tag, its `message` and what `String` makes of it), an `Error` without one, or any other
-- value, by what `String` makes of it.
mutual
  pub data Thrown : Type 0 where
    osqueue_error : TaggedError → Thrown
    foreign_tagged : String → String → String → Thrown
    native_error : String → Thrown
    other_value : String → Thrown

  pub data TaggedError : Type 0 where
    tagged_error : Tag → String → Details → Cause → TaggedError

  pub data Cause : Type 0 where
    no_cause : Cause
    cause : Thrown → Cause

abbrev pub no_details : Details
no_details = record { method = none; path = none; status = none; remote_tag = none; leader = none }

-- The constructor of a class without added fields.
abbrev pub new_error : Tag → String → Cause → TaggedError
new_error t message c = tagged_error t message no_details c

abbrev pub tag_of : TaggedError → Tag
tag_of (tagged_error t message d c) = t

abbrev pub message_of : TaggedError → String
message_of (tagged_error t message d c) = message

-- The text `_tag` of what was thrown, if it has one.
abbrev pub thrown_tag : Thrown → Option String
thrown_tag (osqueue_error e) = some (tag_name (tag_of e))
thrown_tag (foreign_tagged t message text) = some t
thrown_tag (native_error message) = none
thrown_tag (other_value text) = none

unfoldable pub is_tagged_error : Thrown → Bool
is_tagged_error (osqueue_error e) = true
is_tagged_error (foreign_tagged t message text) = true
is_tagged_error (native_error message) = false
is_tagged_error (other_value text) = false

unfoldable pub get_error_message : Thrown → String
get_error_message (osqueue_error e) = message_of e
get_error_message (foreign_tagged t message text) = text
get_error_message (native_error message) = message
get_error_message (other_value text) = text

unfoldable pub wrap_unknown_error : Thrown → (String → Cause → TaggedError) → Thrown
wrap_unknown_error (osqueue_error e) factory = osqueue_error e
wrap_unknown_error (foreign_tagged t message text) factory = foreign_tagged t message text
wrap_unknown_error (native_error message) factory =
    osqueue_error (factory message (cause (native_error message)))
wrap_unknown_error (other_value text) factory = osqueue_error (factory text no_cause)

abbrev osqueue_error_tags : List String
osqueue_error_tags =
    "CASConflictError" ∷ "ConfigError" ∷ "DiscoveryError" ∷ "TransportConfigError"
    ∷ "TransportRequestError" ∷ "TransportConnectionError" ∷ "StorageBackendError"
    ∷ "BrokerLeadershipError" ∷ "BrokerProtocolError" ∷ "EngineStateError" ∷ "WorkerExecutionError"
    ∷ []

has_known_tag : Option String → Bool
has_known_tag none = false
has_known_tag (some t) = includes osqueue_error_tags t

unfoldable pub is_osqueue_error : Thrown → Bool
unfolding is_tagged_error has_known_tag includes string_eq
is_osqueue_error e = is_tagged_error e && has_known_tag (thrown_tag e)

-- `error instanceof CASConflictError`
abbrev pub is_cas_conflict : Thrown → Bool
is_cas_conflict (osqueue_error (tagged_error Tag.cas_conflict message d c)) = true
is_cas_conflict _ = false

-- What a call returns, or throws.
pub data Result {ℓ} (A : Type ℓ) : Type ℓ where
  ok : A → Result A
  thrown : Thrown → Result A
