-- ===== src/Broker/Service.antt =====
-- packages/broker/src/service.ts: the operations over the messages of the protocol
-- (packages/proto). A message is a record of its fields; a text that is not set is empty, and an
-- optional field that is not set is `none`.
use osqueue.Base.{
  ℕ, String, List, map, Option, none, some, if◌then◌else◌, ◌==◌, string_eq, or_default,
}
use osqueue.Types.{JobId, JobStatus, unclaimed, in_progress, Value, ClaimedJob}
use osqueue.Types.Errors.{Result, ok, thrown}
use osqueue.Engine.{Engine, get_cached_state}
use osqueue.Broker.{QueueJobSnapshot, get_queue_stats, get_queue_snapshot}
use osqueue.Broker.Calls.{
  Call, throwing, map_call, PayloadBytes, encode_payload, decode_payload, submit_job_operation,
  claim_job_operation, heartbeat_operation, complete_job_operation,
}

pub record SubmitJobMessage : Type 0 where
  pub payload : PayloadBytes
  pub max_attempts : Option ℕ
  pub type : String

pub record ClaimJobMessage : Type 0 where
  pub worker_id : String
  pub types : List String

pub record HeldJobMessage : Type 0 where
  pub job_id : String
  pub worker_id : String

pub record ClaimJobResponse : Type 0 where
  pub job_id : Option String
  pub payload : Option PayloadBytes
  pub type : String

pub record GetStatsResponse : Type 0 where
  pub total : ℕ
  pub unclaimed : ℕ
  pub in_progress : ℕ
  pub broker_address : String

pub record JobInfo : Type 0 where
  pub id : String
  pub status : String
  pub payload : PayloadBytes
  pub type : String
  pub worker_id : String
  pub created_at : ℕ
  pub attempts : ℕ
  pub max_attempts : ℕ
  pub heartbeat : ℕ

pub record ListJobsResponse : Type 0 where
  pub jobs : List JobInfo
  pub total : ℕ
  pub unclaimed : ℕ
  pub in_progress : ℕ
  pub completed_total : ℕ
  pub broker_address : String

-- `value || undefined`
abbrev pub set_or_undefined : String → Option String
set_or_undefined t = if t == "" then none else some t

unfoldable pub submit_decoded : SubmitJobMessage → Result Value → Call (Option JobId)
submit_decoded req (thrown e) = throwing e
submit_decoded req (ok payload) = submit_job_operation record {
  payload = some payload;
  type = set_or_undefined req.type;
  max_attempts = req.max_attempts;
}

unfoldable pub service_submit_job : SubmitJobMessage → Call (Option JobId)
unfolding submit_decoded
service_submit_job req = submit_decoded req (decode_payload req.payload)

unfoldable pub unclaimed_response : ClaimJobResponse
unclaimed_response = record { job_id = none; payload = none; type = "" }

-- `if (result.jobId)`: an empty identifier counts as none.
unfoldable pub claim_job_message : Option ClaimedJob → ClaimJobResponse
unfolding unclaimed_response
claim_job_message none = unclaimed_response
claim_job_message (some job) = if job.id == "" then unclaimed_response else record {
  job_id = some job.id;
  payload = some (encode_payload (some (or_default job.payload Value.null)));
  type = or_default job.type "";
}

unfoldable pub service_claim_job : ClaimJobMessage → Call ClaimJobResponse
unfolding claim_job_message
service_claim_job req =
    map_call claim_job_message
      (claim_job_operation record { worker_id = req.worker_id; types = some req.types })

unfoldable pub service_heartbeat : HeldJobMessage → Call Unit
service_heartbeat req =
    heartbeat_operation record { job_id = req.job_id; worker_id = req.worker_id }

unfoldable pub service_complete_job : HeldJobMessage → Call Unit
service_complete_job req =
    complete_job_operation record { job_id = req.job_id; worker_id = req.worker_id }

unfoldable pub service_get_stats : Engine → GetStatsResponse
service_get_stats g =
    let stats = get_queue_stats (get_cached_state g) in
    record {
      total = stats.total;
      unclaimed = stats.unclaimed;
      in_progress = stats.in_progress;
      broker_address = stats.broker_address;
    }

abbrev pub status_name : JobStatus → String
status_name unclaimed = "unclaimed"
status_name in_progress = "in_progress"

abbrev pub snapshot_info : QueueJobSnapshot → JobInfo
snapshot_info job = record {
  id = job.id;
  status = status_name job.status;
  payload = encode_payload job.payload;
  type = or_default job.type "";
  worker_id = or_default job.worker_id "";
  created_at = job.created_at;
  attempts = job.attempts;
  max_attempts = job.max_attempts;
  heartbeat = job.heartbeat;
}

unfoldable pub service_list_jobs : Engine → ListJobsResponse
service_list_jobs g =
    let (jobs, stats) = get_queue_snapshot g in
    record {
      jobs = map snapshot_info jobs;
      total = stats.total;
      unclaimed = stats.unclaimed;
      in_progress = stats.in_progress;
      completed_total = stats.completed_total;
      broker_address = stats.broker_address;
    }
