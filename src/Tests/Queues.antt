-- ===== src/Tests/Queues.antt =====
-- The state machine of packages/core/src/state.ts at concrete inputs.
use osqueue.Base.{
  ◌+◌, ◌≡◌, ◌≢◌, refl, String, List, [], ◌∷◌, Option, none, some, arith, First, string_eq,
  option_eq, includes, ne_of_compare,
}
use osqueue.Base.Decimal.{decimal, decimal-injective}
use osqueue.Types.{Value, QueueState, JobInput, Mutation, ClaimedJob}
use osqueue.Queue.{
  empty_state, claimable, claimed_by, claim_info, claim_job, heartbeat_job, complete_job,
  expire_heartbeats, apply_mutation, enqueue_jobs, matches_job_type_filter, timed_out, new_job,
  expire_jobs,
}
use osqueue.Queue.Operations.{removed}
use osqueue.Queue.Expiry.{Expires, expire_heartbeats-Expires}
use osqueue.Queue.Order.{InOrder}
use osqueue.Queue.Ownership.{complete-claim, others_cannot_touch, claims_differ}
use osqueue.Queue.History.{
  Event, mutates, expires, IsValid, here, then_step, step, empty_machine, next, run, accounted,
  total_enqueued, total_given_up, reached_from_empty, run-accounted,
}

abbrev email : JobInput
email = record { payload = some (Value.number 7); job_type = some "email"; max_attempts = none }

abbrev report : JobInput
report = record { payload = some Value.null; job_type = none; max_attempts = some 1 }

-- Two jobs, enqueued at time 100 as number 0 and number 1.
abbrev two_jobs : QueueState
two_jobs = record {
  broker = none;
  broker_heartbeat = 0;
  jobs = new_job (decimal 0) 100 email ∷ new_job (decimal 1) 100 report ∷ [];
  completed_total = 0;
}

two_jobs-InOrder : InOrder decimal 0 2 two_jobs.jobs
two_jobs-InOrder = (0, omega arith, refl, (1, omega arith, refl, omega arith))

abbrev reports : Option (List String)
reports = none

-- The first job, claimed by worker "w" at time 200.
abbrev first_claimed : QueueState
first_claimed = record two_jobs {
  jobs = claimed_by "w" 200 (new_job (decimal 0) 100 email) ∷ new_job (decimal 1) 100 report ∷ [];
}

abbrev both_claimed : QueueState
both_claimed = record two_jobs {
  jobs =
      claimed_by "w" 200 (new_job (decimal 0) 100 email)
      ∷ claimed_by "v" 300 (new_job (decimal 1) 100 report)
      ∷ [];
}

abbrev first_claim : ClaimedJob
first_claim = record { id = decimal 0; payload = some (Value.number 7); type = some "email" }

abbrev second_claim : ClaimedJob
second_claim = record { id = decimal 1; payload = some Value.null; type = none }

claims_first : claim_job two_jobs "w" 200 none ≡ (first_claimed, some first_claim)
unfolding claim_job matches_job_type_filter
claims_first = refl

claims_second : claim_job first_claimed "v" 300 none ≡ (both_claimed, some second_claim)
unfolding claim_job matches_job_type_filter
claims_second = refl

-- A filter by type passes over the jobs without it, and the empty type is no type.
filters :
    ((claim_job two_jobs "w" 200 (some ("report" ∷ []))).1 ≡ none)
    × ((claim_job two_jobs "w" 200 (some [])).1 ≡ some first_claim)
unfolding claim_job matches_job_type_filter includes string_eq
filters = (refl, refl)

-- At time 31000 the claims of times 200 and 300 have run out: the report had its only attempt.
expires_both :
    (expire_heartbeats both_claimed 31_000 30_000).jobs
    ≡ record (new_job (decimal 0) 100 email) { attempts = 1 } ∷ []
unfolding expire_heartbeats expire_jobs timed_out
expires_both = refl

complete-claim_example :
    (f : First (claimable none) two_jobs.jobs) × (first_claim ≡ claim_info f.found)
    × (complete_job first_claimed first_claim.id "w" ≡ removed two_jobs f)
complete-claim_example =
    complete-claim decimal decimal-injective two_jobs first_claimed 2 "w" 200 none first_claim
      two_jobs-InOrder claims_first

workers_differ : ◌≢◌ {A = String} "v" "w"
workers_differ = ne_of_compare "v" "w" refl

others_cannot_touch_example :
    (heartbeat_job first_claimed first_claim.id "v" 250 ≡ first_claimed)
    × (complete_job first_claimed first_claim.id "v" ≡ first_claimed)
others_cannot_touch_example =
    others_cannot_touch decimal decimal-injective two_jobs first_claimed 2 "w" 200 none first_claim
      "v" 250 two_jobs-InOrder claims_first workers_differ

claims_differ_example : second_claim.id ≢ first_claim.id
claims_differ_example =
    claims_differ decimal decimal-injective two_jobs first_claimed 2 "w" 200 none first_claim
      both_claimed "v" 300 none second_claim two_jobs-InOrder claims_first claims_second

-- The first job has attempts left, the second has used up its only one.
expire_heartbeats-Expires_example :
    let s' = expire_heartbeats both_claimed 31_000 30_000 in
    Expires 31_000 30_000 both_claimed.jobs s'.jobs
    × (s'.broker ≡ both_claimed.broker)
    × (s'.broker_heartbeat ≡ both_claimed.broker_heartbeat)
    × (s'.completed_total ≡ both_claimed.completed_total)
expire_heartbeats-Expires_example = expire_heartbeats-Expires 31_000 30_000 both_claimed

abbrev day : List Event
day =
    mutates (Mutation.enqueue (email ∷ report ∷ [])) 100
    ∷ mutates (Mutation.claim "w" none) 200
    ∷ mutates (Mutation.claim "v" none) 300
    ∷ mutates (Mutation.complete (decimal 0) "w") 400
    ∷ expires 31_000 30_000
    ∷ []

-- One job was completed and one given up on.
day_ends :
    (accounted (run decimal (empty_machine decimal) day).state ≡ 1)
    × (total_given_up decimal (empty_machine decimal) day ≡ 1)
unfolding run next total_given_up apply_mutation enqueue_jobs claim_job complete_job
    expire_heartbeats expire_jobs timed_out matches_job_type_filter empty_state string_eq option_eq
    decimal
day_ends = (refl, refl)

reached_from_empty_example :
    IsValid decimal
      (next decimal (empty_machine decimal) (mutates (Mutation.enqueue (email ∷ [])) 100))
reached_from_empty_example = reached_from_empty decimal (then_step here (step _ _))

run-accounted_example :
    accounted (run decimal (empty_machine decimal) day).state
      + total_given_up decimal (empty_machine decimal) day
    ≡ accounted (empty_machine decimal).state + total_enqueued decimal day
run-accounted_example = run-accounted decimal (empty_machine decimal) day
