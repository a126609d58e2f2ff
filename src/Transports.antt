-- ===== src/Transports.antt =====
-- packages/client/src/transports/types.ts: requests and results of an adapter, and what the REST and
-- WebSocket adapters make of the JSON values they receive.
pub mod Rest
pub mod Ws
pub mod Connect
use osqueue.Base.{ℕ, String, List, [], ◌∷◌, Option, none, some, or_default}
use osqueue.Json.{
  get, not_null, ◌>>=◌, as_text, as_number, as_object, required, optional, option_map,
}
use osqueue.Types.{JobId, WorkerId, Value, Elements, no_elements, element, Properties}
use osqueue.Types.Errors.{Result, ok, thrown}
use osqueue.Broker.Calls.{encode_payload}
use osqueue.Broker.Service.{GetStatsResponse, JobInfo, ListJobsResponse}

pub record SubmitJobRequest : Type 0 where
  pub type : String
  pub payload : Option Value
  pub max_attempts : Option ℕ

pub record ClaimJobRequest : Type 0 where
  pub worker_id : WorkerId
  pub types : Option (List String)

pub record HeldJobRequest : Type 0 where
  pub job_id : JobId
  pub worker_id : WorkerId

pub record ClaimJobResult : Type 0 where
  pub job_id : Option String
  pub type : String
  pub payload : Value

-- What a call of an adapter comes to: `none` where the other side answers with a value that is not
-- of the type that the code casts it to.
abbrev pub Outcome : Type 0 → Type 0
Outcome A = Option (Result A)

-- `(await request<T>(...))`: the value received, undefined being `none`, read at its type.
abbrev pub received : {A : Type 0} → (Value → Option A) → Result (Option Value) → Outcome A
received cast (thrown e) = some (thrown e)
received cast (ok none) = none
received cast (ok (some v)) = option_map ok (cast v)

-- `await request<void>(...)`
abbrev pub ignored : Result (Option Value) → Outcome Unit
ignored (thrown e) = some (thrown e)
ignored (ok v) = some (ok tt)

unfoldable pub submit_result : Value → Option JobId
submit_result v = do ps ← as_object v; required as_text (get "jobId" ps)

unfoldable pub claim_result : Value → Option ClaimJobResult
claim_result v = do
  ps ← as_object v
  job_id ← optional as_text (get "jobId" ps)
  type ← optional as_text (get "type" ps)
  some record {
    job_id = job_id;
    type = or_default type "";
    payload = or_default (get "payload" ps) Value.null;
  }

unfoldable pub stats_result : Value → Option GetStatsResponse
stats_result v = do
  ps ← as_object v
  total ← required as_number (get "total" ps)
  unclaimed ← required as_number (get "unclaimed" ps)
  in_progress ← required as_number (get "inProgress" ps)
  broker_address ← required as_text (get "brokerAddress" ps)
  some record {
    total = total;
    unclaimed = unclaimed;
    in_progress = in_progress;
    broker_address = broker_address;
  }

unfoldable pub job_info : Value → Option JobInfo
job_info v = do
  ps ← as_object v
  id ← required as_text (get "id" ps)
  status ← required as_text (get "status" ps)
  type ← optional as_text (get "type" ps)
  worker_id ← optional as_text (get "workerId" ps)
  created_at ← required as_number (get "createdAt" ps)
  attempts ← required as_number (get "attempts" ps)
  max_attempts ← required as_number (get "maxAttempts" ps)
  heartbeat ← required as_number (get "heartbeat" ps)
  some record {
    id = id;
    status = status;
    payload = encode_payload (get "payload" ps);
    type = or_default type "";
    worker_id = or_default worker_id "";
    created_at = created_at;
    attempts = attempts;
    max_attempts = max_attempts;
    heartbeat = heartbeat;
  }

unfoldable pub job_infos : Elements → Option (List JobInfo)
job_infos no_elements = some []
job_infos (element v rest) = do info ← job_info v; infos ← job_infos rest; some (info ∷ infos)

abbrev pub as_elements : Value → Option Elements
as_elements (Value.array xs) = some xs
as_elements _ = none

unfoldable pub list_result : Value → Option ListJobsResponse
unfolding job_infos
list_result v = do
  ps ← as_object v
  elements ← required as_elements (get "jobs" ps)
  jobs ← job_infos elements
  total ← required as_number (get "total" ps)
  unclaimed ← required as_number (get "unclaimed" ps)
  in_progress ← required as_number (get "inProgress" ps)
  completed_total ← required as_number (get "completedTotal" ps)
  broker_address ← required as_text (get "brokerAddress" ps)
  some record {
    jobs = jobs;
    total = total;
    unclaimed = unclaimed;
    in_progress = in_progress;
    completed_total = completed_total;
    broker_address = broker_address;
  }
