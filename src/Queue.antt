-- ===== src/Queue.antt =====
-- packages/core/src/state.ts: the queue's state machine. `Date.now()` is the argument `now`.
-- `crypto.randomUUID()` is the stream `uuid`, with the number of identifiers drawn so far as state.
pub mod Operations
pub mod Expiry
pub mod Validity
pub mod Order
pub mod Ownership
pub mod History
use osqueue.Base.{
  ℕ, suc, ◌+◌, ◌-◌, String, Bool, true, false, ◌&&◌, List, [], ◌∷◌, ◌++◌, Option, none, some,
  if◌then◌else◌, ◌==◌, option_eq, string_eq, includes, or_default, ltb, leb, get_elem?, set,
  find_index, drop_index,
}
use osqueue.Types.{
  JobId, WorkerId, JobStatus, unclaimed, in_progress, Job, QueueState, JobInput, Mutation,
  ClaimedJob, MutationResult, default_max_attempts,
}

unfoldable pub empty_state : QueueState
empty_state = record { broker = none; broker_heartbeat = 0; jobs = []; completed_total = 0 }

abbrev pub is_unclaimed : JobStatus → Bool
is_unclaimed unclaimed = true
is_unclaimed in_progress = false

abbrev pub is_in_progress : JobStatus → Bool
is_in_progress unclaimed = false
is_in_progress in_progress = true

-- `!job.type` holds of an absent type and of the empty text.
type_in : Option String → List String → Bool
type_in none types = false
type_in (some t) types = if t == "" then false else includes types t

unfoldable pub matches_job_type_filter : Job → Option (List String) → Bool
unfolding type_in
matches_job_type_filter job none = true
matches_job_type_filter job (some []) = true
matches_job_type_filter job (some (t ∷ types)) = type_in job.type (t ∷ types)

-- The first test of `claimJob`.
abbrev pub claimable : Option (List String) → Job → Bool
claimable types job = is_unclaimed job.status && matches_job_type_filter job types

-- The test of `heartbeatJob` and of `completeJob`.
abbrev pub held_by : JobId → WorkerId → Job → Bool
held_by job_id worker_id job =
    job.id == job_id && job.worker_id == some worker_id && is_in_progress job.status

abbrev pub claimed_by : WorkerId → ℕ → Job → Job
claimed_by worker_id now job = record job {
  status = in_progress;
  worker_id = some worker_id;
  heartbeat = some now;
  attempts = job.attempts + 1;
}

abbrev pub claim_info : Job → ClaimedJob
claim_info job = record { id = job.id; payload = job.payload; type = job.type }

-- `state.jobs[idx]!`: the index was found, so the second case does not occur.
claim_at : QueueState → WorkerId → ℕ → ℕ → Option Job → QueueState × Option ClaimedJob
claim_at state worker_id now idx none = (state, none)
claim_at state worker_id now idx (some job) = (
  record state { jobs = set state.jobs idx (claimed_by worker_id now job) },
  some (claim_info job),
)

claim_found : QueueState → WorkerId → ℕ → Option ℕ → QueueState × Option ClaimedJob
unfolding claim_at
claim_found state worker_id now none = (state, none)
claim_found state worker_id now (some idx) =
    claim_at state worker_id now idx (get_elem? state.jobs idx)

unfoldable pub claim_job :
    QueueState → WorkerId → ℕ → Option (List String) → QueueState × Option ClaimedJob
unfolding claim_found
claim_job state worker_id now types =
    claim_found state worker_id now (find_index (claimable types) state.jobs)

heartbeat_at : QueueState → ℕ → ℕ → Option Job → QueueState
heartbeat_at state now idx none = state
heartbeat_at state now idx (some job) = record state {
  jobs = set state.jobs idx (record job { heartbeat = some now });
}

heartbeat_found : QueueState → ℕ → Option ℕ → QueueState
unfolding heartbeat_at
heartbeat_found state now none = state
heartbeat_found state now (some idx) = heartbeat_at state now idx (get_elem? state.jobs idx)

unfoldable pub heartbeat_job : QueueState → JobId → WorkerId → ℕ → QueueState
unfolding heartbeat_found
heartbeat_job state job_id worker_id now =
    heartbeat_found state now (find_index (held_by job_id worker_id) state.jobs)

complete_found : QueueState → Option ℕ → QueueState
complete_found state none = state
complete_found state (some idx) = record state {
  jobs = drop_index 0 idx state.jobs;
  completed_total = state.completed_total + 1;
}

unfoldable pub complete_job : QueueState → JobId → WorkerId → QueueState
unfolding complete_found
complete_job state job_id worker_id =
    complete_found state (find_index (held_by job_id worker_id) state.jobs)

-- `job.heartbeat !== undefined && now - job.heartbeat > timeoutMs`. Where the clock stands before
-- the heartbeat, the difference is negative in the code and 0 here, and the test fails in both.
unfoldable pub stale : Option ℕ → ℕ → ℕ → Bool
stale none now timeout_ms = false
stale (some heartbeat) now timeout_ms = ltb timeout_ms (now - heartbeat)

unfoldable pub timed_out : ℕ → ℕ → Job → Bool
unfolding stale
timed_out now timeout_ms job = is_in_progress job.status && stale job.heartbeat now timeout_ms

abbrev pub exhausted : Job → Bool
exhausted job = leb (or_default job.max_attempts default_max_attempts) job.attempts

abbrev pub released : Job → Job
released job = record job { status = unclaimed; worker_id = none; heartbeat = none }

-- The `reduce` of `expireHeartbeats`, from the front.
unfoldable pub expire_jobs : ℕ → ℕ → List Job → List Job
expire_jobs now timeout_ms [] = []
expire_jobs now timeout_ms (job ∷ jobs) =
    let rest = expire_jobs now timeout_ms jobs in
    if timed_out now timeout_ms job
    then (if exhausted job then rest else released job ∷ rest)
    else job ∷ rest

unfoldable pub expire_heartbeats : QueueState → ℕ → ℕ → QueueState
expire_heartbeats state now timeout_ms = record state {
  jobs = expire_jobs now timeout_ms state.jobs;
}

unfoldable pub register_broker : QueueState → String → ℕ → QueueState
register_broker state broker_address timestamp = record state {
  broker = some broker_address;
  broker_heartbeat = timestamp;
}

abbrev pub new_job : JobId → ℕ → JobInput → Job
new_job id now p = record {
  id = id;
  status = unclaimed;
  payload = p.payload;
  type = p.job_type;
  heartbeat = none;
  worker_id = none;
  created_at = now;
  attempts = 0;
  max_attempts = p.max_attempts;
}

abbrev pub no_result : MutationResult
no_result = record { claimed_job = none; enqueued_ids = none }

-- What `applyMutation` leaves: the state, the result, and the identifiers drawn.
pub record Applied : Type 0 where
  pub state : QueueState
  pub result : MutationResult
  pub drawn : ℕ

module _ (uuid : ℕ → JobId) where
  -- The `map` of `enqueueJobs`: the n-th job takes the n-th next identifier.
  unfoldable pub new_jobs : ℕ → ℕ → List JobInput → List Job
  new_jobs drawn now [] = []
  new_jobs drawn now (p ∷ payloads) = new_job (uuid drawn) now p ∷ new_jobs (suc drawn) now payloads

  unfoldable pub new_ids : ℕ → List JobInput → List JobId
  new_ids drawn [] = []
  new_ids drawn (p ∷ payloads) = uuid drawn ∷ new_ids (suc drawn) payloads

  unfoldable pub drawn_by : ℕ → List JobInput → ℕ
  drawn_by drawn [] = drawn
  drawn_by drawn (p ∷ payloads) = drawn_by (suc drawn) payloads

  unfoldable pub enqueue_jobs : QueueState → List JobInput → ℕ → ℕ → QueueState × List JobId × ℕ
  unfolding new_jobs new_ids drawn_by
  enqueue_jobs state payloads now drawn = (
    record state { jobs = state.jobs ++ new_jobs drawn now payloads },
    new_ids drawn payloads,
    drawn_by drawn payloads,
  )

  unfoldable pub apply_mutation : QueueState → Mutation → ℕ → ℕ → Applied
  apply_mutation state (Mutation.enqueue jobs) now drawn =
      let (new_state, ids, drawn') = enqueue_jobs state jobs now drawn in
      record {
        state = new_state;
        result = record { claimed_job = none; enqueued_ids = some ids };
        drawn = drawn';
      }
  apply_mutation state (Mutation.claim worker_id job_types) now drawn =
      let (new_state, claimed) = claim_job state worker_id now job_types in
      record {
        state = new_state;
        result = record { claimed_job = some claimed; enqueued_ids = none };
        drawn = drawn;
      }
  apply_mutation state (Mutation.heartbeat job_id worker_id) now drawn = record {
    state = heartbeat_job state job_id worker_id now;
    result = no_result;
    drawn = drawn;
  }
  apply_mutation state (Mutation.complete job_id worker_id) now drawn = record {
    state = complete_job state job_id worker_id;
    result = no_result;
    drawn = drawn;
  }
  apply_mutation state (Mutation.register_broker broker_address timestamp) now drawn = record {
    state = register_broker state broker_address timestamp;
    result = no_result;
    drawn = drawn;
  }
