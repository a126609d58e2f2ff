-- ===== src/Types.antt =====
-- packages/types/src/index.ts: jobs, the queue state, mutations and their results, the constants.
-- Times are milliseconds and counts are whole numbers. An optional field is an `Option`, with
-- `none` for a field that is absent or undefined.
pub mod Errors
use osqueue.Base.{ℕ, String, List, Option, Bool}

-- What JSON can carry; numbers are whole. A payload (`unknown`) is such a value, or undefined. The
-- second constructor of a list or an object puts an element or a property in front.
mutual
  pub data Value : Type 0 where
    null : Value
    boolean : Bool → Value
    number : ℕ → Value
    text : String → Value
    array : Elements → Value
    object : Properties → Value

  pub data Elements : Type 0 where
    no_elements : Elements
    element : Value → Elements → Elements

  pub data Properties : Type 0 where
    no_properties : Properties
    property : (name : String) → (value : Value) → Properties → Properties

abbrev pub JobId : Type 0
JobId = String

abbrev pub WorkerId : Type 0
WorkerId = String

pub data JobStatus : Type 0 where
  unclaimed in_progress : JobStatus

pub record Job : Type 0 where
  pub id : JobId
  pub status : JobStatus
  pub payload : Option Value
  pub type : Option String
  pub heartbeat : Option ℕ
  pub worker_id : Option WorkerId
  pub created_at : ℕ
  pub attempts : ℕ
  pub max_attempts : Option ℕ

pub record QueueState : Type 0 where
  pub broker : Option String
  pub broker_heartbeat : ℕ
  pub jobs : List Job
  pub completed_total : ℕ

-- An element of `jobs` in an enqueue mutation.
pub record JobInput : Type 0 where
  pub payload : Option Value
  pub job_type : Option String
  pub max_attempts : Option ℕ

pub data Mutation : Type 0 where
  enqueue : List JobInput → Mutation
  claim : WorkerId → Option (List String) → Mutation
  heartbeat : JobId → WorkerId → Mutation
  complete : JobId → WorkerId → Mutation
  register_broker : String → ℕ → Mutation

pub record ClaimedJob : Type 0 where
  pub id : JobId
  pub payload : Option Value
  pub type : Option String

-- `claimed_job` is `some none` where the code has null.
pub record MutationResult : Type 0 where
  pub claimed_job : Option (Option ClaimedJob)
  pub enqueued_ids : Option (List JobId)

-- The opaque version token of a stored object.
pub record StorageVersion : Type 0 where
  pub token : String

abbrev pub queue_state_key : String
queue_state_key = "queue.json"

abbrev pub default_heartbeat_timeout_ms : ℕ
default_heartbeat_timeout_ms = 30_000

abbrev pub default_broker_heartbeat_timeout_ms : ℕ
default_broker_heartbeat_timeout_ms = 10_000

abbrev pub default_max_attempts : ℕ
default_max_attempts = 3
