-- ===== src/Broker.antt =====
-- packages/broker/src/operations.ts: what the broker asks of the engine for its clients, and the
-- views of the cached state. An operation that submits a mutation is two functions, the mutation and
-- what is returned for its result.
pub mod Operations
pub mod Calls
pub mod Service
pub mod Replies
pub mod Dispatch
pub mod Routes
pub mod Server
use osqueue.Base.{
  ℕ, String, Bool, true, false, List, [], ◌∷◌, Option, none, some, length, keep, map, if◌then◌else◌,
  ◌==◌, string_eq, ltb, or_default,
}
use osqueue.Types.{
  JobId, WorkerId, JobStatus, Job, QueueState, Value, Mutation, MutationResult, ClaimedJob,
}
use osqueue.Queue.{is_unclaimed, is_in_progress}
use osqueue.Engine.{Engine, get_cached_state}

pub record QueueStatsSnapshot : Type 0 where
  pub total : ℕ
  pub unclaimed : ℕ
  pub in_progress : ℕ
  pub completed_total : ℕ
  pub broker_address : String

pub record QueueJobSnapshot : Type 0 where
  pub id : JobId
  pub status : JobStatus
  pub payload : Option Value
  pub type : Option String
  pub worker_id : Option WorkerId
  pub created_at : ℕ
  pub attempts : ℕ
  pub max_attempts : ℕ
  pub heartbeat : ℕ

unfoldable pub get_queue_stats : Option QueueState → QueueStatsSnapshot
get_queue_stats none = record {
  total = 0;
  unclaimed = 0;
  in_progress = 0;
  completed_total = 0;
  broker_address = "";
}
get_queue_stats (some state) = record {
  total = length state.jobs;
  unclaimed = length (keep (λ j. is_unclaimed j.status) state.jobs);
  in_progress = length (keep (λ j. is_in_progress j.status) state.jobs);
  completed_total = state.completed_total;
  broker_address = or_default state.broker "";
}

abbrev pub job_snapshot : Job → QueueJobSnapshot
job_snapshot job = record {
  id = job.id;
  status = job.status;
  payload = job.payload;
  type = job.type;
  worker_id = job.worker_id;
  created_at = job.created_at;
  attempts = job.attempts;
  max_attempts = or_default job.max_attempts 0;
  heartbeat = or_default job.heartbeat 0;
}

abbrev pub job_snapshots : Option QueueState → List QueueJobSnapshot
job_snapshots none = []
job_snapshots (some state) = map job_snapshot state.jobs

unfoldable pub get_queue_snapshot : Engine → List QueueJobSnapshot × QueueStatsSnapshot
unfolding get_cached_state get_queue_stats
get_queue_snapshot g =
    let state = get_cached_state g in (job_snapshots state, get_queue_stats state)

pub record SubmitJobInput : Type 0 where
  pub payload : Option Value
  pub type : Option String
  pub max_attempts : Option ℕ

-- `type || undefined`
unfoldable pub type_or_undefined : Option String → Option String
type_or_undefined none = none
type_or_undefined (some t) = if t == "" then none else some t

unfoldable pub submit_job_mutation : SubmitJobInput → Mutation
unfolding type_or_undefined
submit_job_mutation input = Mutation.enqueue (
    record {
      payload = input.payload;
      job_type = type_or_undefined input.type;
      max_attempts = input.max_attempts;
    }
    ∷ [])

-- `result.enqueuedIds![0]!`, where `none` is undefined.
unfoldable pub submit_job_response : Option (List JobId) → Option JobId
submit_job_response none = none
submit_job_response (some []) = none
submit_job_response (some (id ∷ ids)) = some id

pub record ClaimJobInput : Type 0 where
  pub worker_id : WorkerId
  pub types : Option (List String)

unfoldable pub wanted_types : Option (List String) → Option (List String)
wanted_types none = none
wanted_types (some types) = if ltb 0 (length types) then some types else none

unfoldable pub claim_job_mutation : ClaimJobInput → Mutation
unfolding wanted_types
claim_job_mutation input = Mutation.claim input.worker_id (wanted_types input.types)

-- `none` is the empty response.
unfoldable pub claim_job_response : Option (Option ClaimedJob) → Option ClaimedJob
claim_job_response none = none
claim_job_response (some claimed) = claimed

pub record HeldJobInput : Type 0 where
  pub job_id : JobId
  pub worker_id : WorkerId

unfoldable pub heartbeat_mutation : HeldJobInput → Mutation
heartbeat_mutation input = Mutation.heartbeat input.job_id input.worker_id

unfoldable pub complete_job_mutation : HeldJobInput → Mutation
complete_job_mutation input = Mutation.complete input.job_id input.worker_id
