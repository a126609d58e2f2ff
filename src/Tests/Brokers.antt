-- ===== src/Tests/Brokers.antt =====
-- The broker's operations on a queue of two jobs.
use osqueue.Base.{◌≡◌, ◌⊎◌, false, [], ◌∷◌, none, some, All, First}
use osqueue.Base.Decimal.{decimal}
use osqueue.Types.{Value, JobInput, QueueState}
use osqueue.Queue.{apply_mutation, claimable, claimed_by, claim_info, new_job}
use osqueue.Queue.Operations.{replaced}
use osqueue.Engine.{Engine, new_engine}
use osqueue.Broker.{ClaimJobInput, wanted_types, claim_job_mutation, claim_job_response}
use osqueue.Broker.Operations.{claim_job-answers}

abbrev email : JobInput
email = record { payload = some (Value.number 7); job_type = some "email"; max_attempts = none }

abbrev queue : QueueState
queue = record {
  broker = none;
  broker_heartbeat = 0;
  jobs = claimed_by "w" 200 (new_job (decimal 0) 100 email) ∷ new_job (decimal 1) 100 email ∷ [];
  completed_total = 0;
}

abbrev engine : Engine
engine = record new_engine { cached_state = some queue }

abbrev wanted : ClaimJobInput
wanted = record { worker_id = "v"; types = some ("email" ∷ []) }

claim_job-answers_example :
    let a = apply_mutation decimal queue (claim_job_mutation wanted) 300 2 in
    let types = wanted_types (some ("email" ∷ [])) in
    (claim_job_response a.result.claimed_job ≡ none)
      × (a.state ≡ queue)
      × All (λ job. claimable types job ≡ false) queue.jobs
    ⊎ (f : First (claimable types) queue.jobs) × (claim_job_response a.result.claimed_job
        ≡ some (claim_info f.found))
      × (a.state ≡ replaced queue f (claimed_by "v" 300 f.found))
claim_job-answers_example = claim_job-answers decimal queue 300 2 wanted
