-- ===== src/Json/States.antt =====
-- The state of the queue as JSON, as packages/core/src/group-commit.ts and
-- packages/core/src/broker-election.ts store and read it: what `JSON.stringify` makes of a
-- `QueueState` (packages/types/src/index.ts), and the cast of what `JSON.parse` returns.
use osqueue.Base.{
  String, ◌≡◌, refl, ap, ◌∙◌, List, [], ◌∷◌, Option, none, some, arith, if◌then◌else◌, ◌==◌,
  string_eq,
}
use osqueue.Json.{get, put, option_map, ◌>>=◌, as_text, as_number, as_object, required, optional}
use osqueue.Types.{
  Value, Elements, no_elements, element, no_properties, property, JobStatus, unclaimed, in_progress,
  Job, QueueState,
}
use osqueue.Types.Errors.{Result, ok, thrown, native_error}
use osqueue.Engine.{Codec}

abbrev status_text : JobStatus → Value
status_text unclaimed = Value.text "unclaimed"
status_text in_progress = Value.text "in_progress"

abbrev stored_job : Job → Value
stored_job job = Value.object (
    property "id" (Value.text job.id) (
      property "status" (status_text job.status) (
        property "createdAt" (Value.number job.created_at) (
          property "attempts" (Value.number job.attempts) (
            put "payload" job.payload (
              put "type" (option_map Value.text job.type) (
                put "heartbeat" (option_map Value.number job.heartbeat) (
                  put "workerId" (option_map Value.text job.worker_id) (
                    put "maxAttempts" (option_map Value.number job.max_attempts)
                      no_properties)))))))))

abbrev stored_jobs : List Job → Elements
stored_jobs [] = no_elements
stored_jobs (job ∷ jobs) = element (stored_job job) (stored_jobs jobs)

abbrev broker_value : Option String → Value
broker_value none = Value.null
broker_value (some broker) = Value.text broker

abbrev pub state_value : QueueState → Value
state_value state = Value.object (
    property "broker" (broker_value state.broker) (
      property "brokerHeartbeat" (Value.number state.broker_heartbeat) (
        property "jobs" (Value.array (stored_jobs state.jobs))
          (property "completedTotal" (Value.number state.completed_total) no_properties))))

status_of : String → Option JobStatus
status_of t =
    if t == "unclaimed"
    then some unclaimed
    else if t == "in_progress"
    then some in_progress
    else none

as_job : Value → Option Job
unfolding status_of
as_job v = do
  ps ← as_object v
  id ← required as_text (get "id" ps)
  name ← required as_text (get "status" ps)
  status ← status_of name
  created_at ← required as_number (get "createdAt" ps)
  attempts ← required as_number (get "attempts" ps)
  type ← optional as_text (get "type" ps)
  heartbeat ← optional as_number (get "heartbeat" ps)
  worker_id ← optional as_text (get "workerId" ps)
  max_attempts ← optional as_number (get "maxAttempts" ps)
  some record {
    id = id;
    status = status;
    payload = get "payload" ps;
    type = type;
    heartbeat = heartbeat;
    worker_id = worker_id;
    created_at = created_at;
    attempts = attempts;
    max_attempts = max_attempts;
  }

as_jobs : Elements → Option (List Job)
as_jobs no_elements = some []
as_jobs (element v rest) = do job ← as_job v; jobs ← as_jobs rest; some (job ∷ jobs)

as_broker : Value → Option (Option String)
as_broker Value.null = some none
as_broker (Value.text t) = some (some t)
as_broker _ = none

as_elements : Value → Option Elements
as_elements (Value.array xs) = some xs
as_elements _ = none

pub as_state : Value → Option QueueState
unfolding as_jobs as_broker as_elements
as_state v = do
  ps ← as_object v
  broker ← required as_broker (get "broker" ps)
  broker_heartbeat ← required as_number (get "brokerHeartbeat" ps)
  elements ← required as_elements (get "jobs" ps)
  jobs ← as_jobs elements
  completed_total ← required as_number (get "completedTotal" ps)
  some record {
    broker = broker;
    broker_heartbeat = broker_heartbeat;
    jobs = jobs;
    completed_total = completed_total;
  }

as_job-stored_job : (job : Job) → as_job (stored_job job) ≡ some job
unfolding as_job status_of get string_eq
as_job-stored_job job = ground arith

as_jobs-stored_jobs : (jobs : List Job) → as_jobs (stored_jobs jobs) ≡ some jobs
unfolding as_jobs
as_jobs-stored_jobs [] = refl
as_jobs-stored_jobs (job ∷ jobs) =
    ap (λ j. j >>= λ x. as_jobs (stored_jobs jobs) >>= λ xs. some (x ∷ xs)) (as_job-stored_job job)
    ∙ ap (λ js. js >>= λ xs. some (job ∷ xs)) (as_jobs-stored_jobs jobs)

as_broker-broker_value : (broker : Option String) → as_broker (broker_value broker) ≡ some broker
unfolding as_broker
as_broker-broker_value none = refl
as_broker-broker_value (some t) = refl

-- A state that is printed and parsed again is the same state: null for no broker, and fields that are
-- undefined and left out, among it.
pub as_state-state_value : (state : QueueState) → as_state (state_value state) ≡ some state
unfolding as_state as_elements get string_eq
as_state-state_value state =
    rw (as_broker-broker_value state.broker, as_jobs-stored_jobs state.jobs) refl

-- Bytes by the JSON value that they hold, or none. A value that is not of the type that it is cast to
-- counts as an error here.
abbrev pub cast_to_state : Option QueueState → Result QueueState
cast_to_state none = thrown (native_error "not a queue state")
cast_to_state (some state) = ok state

unfoldable pub decode_state : Option Value → Result QueueState
decode_state none = thrown (native_error "Unexpected token in JSON")
decode_state (some v) = cast_to_state (as_state v)

abbrev pub json_codec : Codec
json_codec = record {
  Bytes = Option Value;
  encode = λ state. some (state_value state);
  decode = decode_state;
}

-- What the engine and the election store is decoded to the same state: the law that their theorems ask
-- of a `Codec` holds for JSON.
pub decode-encode : (state : QueueState) → json_codec.decode (json_codec.encode state) ≡ ok state
unfolding decode_state
decode-encode state = ap cast_to_state (as_state-state_value state)
