-- ===== src/Broker/Operations.antt =====
-- What the operations of packages/broker/src/operations.ts do to the queue, and what they return.
use osqueue.Base.{
  ℕ, suc, ◌+◌, ◌≡◌, refl, ap, ◌⊎◌, inl, inr, false, List, [], ◌∷◌, ◌++◌, Option, none, some, arith,
  length, keep, length-map, All, First,
}
use osqueue.Types.{JobId, JobStatus, unclaimed, in_progress, Job, QueueState}
use osqueue.Queue.{
  apply_mutation, enqueue_jobs, new_jobs, new_ids, claimable, claimed_by, claim_info, is_unclaimed,
  is_in_progress,
}
use osqueue.Queue.Operations.{replaced, claim_job-first}
use osqueue.Engine.{Engine, get_cached_state}
use osqueue.Broker.{
  get_queue_stats, job_snapshot, job_snapshots, get_queue_snapshot, SubmitJobInput,
  type_or_undefined, submit_job_mutation, submit_job_response, ClaimJobInput, wanted_types,
  claim_job_mutation, claim_job_response,
}

each_status :
    (jobs : List Job)
    → length (keep (λ j. is_unclaimed j.status) jobs)
        + length (keep (λ j. is_in_progress j.status) jobs)
      ≡ length jobs
each_status [] = omega arith
each_status (job ∷ jobs) = by_status job.status refl (each_status jobs)
  where
    by_status :
        (s : JobStatus)
        → job.status ≡ s
        → length (keep (λ j. is_unclaimed j.status) jobs)
            + length (keep (λ j. is_in_progress j.status) jobs)
          ≡ length jobs
        → length (keep (λ j. is_unclaimed j.status) (job ∷ jobs))
            + length (keep (λ j. is_in_progress j.status) (job ∷ jobs))
          ≡ suc (length jobs)
    by_status unclaimed e rest = rw e (omega (arith, rest))
    by_status in_progress e rest = rw e (omega (arith, rest))

-- The listing and the statistics agree, whether or not a state is cached: every job is listed, the
-- total is their number, and it is the sum of those unclaimed and those in progress.
pub get_queue_snapshot-adds_up :
    (g : Engine)
    → let (jobs, stats) = get_queue_snapshot g in
      (length jobs ≡ stats.total) × (stats.unclaimed + stats.in_progress ≡ stats.total)
unfolding get_queue_snapshot get_queue_stats get_cached_state
get_queue_snapshot-adds_up g = of_state g.cached_state
  where
    of_state :
        (state : Option QueueState)
        → let stats = get_queue_stats state in
          (length (job_snapshots state) ≡ stats.total)
          × (stats.unclaimed + stats.in_progress ≡ stats.total)
    of_state none = (refl, omega arith)
    of_state (some state) = (length-map job_snapshot state.jobs, each_status state.jobs)

module _ (uuid : ℕ → JobId) (state : QueueState) (now drawn : ℕ) where
  -- Submitting a job puts one unclaimed job behind the others, with the next identifier, and
  -- returns this identifier.
  submit_job-appends :
      (input : SubmitJobInput)
      → let a = apply_mutation uuid state (submit_job_mutation input) now drawn in
        (submit_job_response a.result.enqueued_ids ≡ some (uuid drawn))
        × (a.state ≡ record state {
          jobs =
              state.jobs
              ++ record {
                id = uuid drawn;
                status = unclaimed;
                payload = input.payload;
                type = type_or_undefined input.type;
                heartbeat = none;
                worker_id = none;
                created_at = now;
                attempts = 0;
                max_attempts = input.max_attempts;
              }
                ∷ [];
        })
  unfolding submit_job_mutation submit_job_response apply_mutation enqueue_jobs new_jobs new_ids
  submit_job-appends input = (refl, refl)

  -- The answer to a request for a job is empty if no unclaimed job is of a wanted type, and the
  -- queue stays as it is; otherwise it is the first of them, which the worker then holds, and the
  -- rest of the queue stays as it is.
  pub claim_job-answers :
      (input : ClaimJobInput)
      → let a = apply_mutation uuid state (claim_job_mutation input) now drawn in
        let wanted = wanted_types input.types in
        (claim_job_response a.result.claimed_job ≡ none)
          × (a.state ≡ state)
          × All (λ job. claimable wanted job ≡ false) state.jobs
        ⊎ (f : First (claimable wanted) state.jobs) × (claim_job_response a.result.claimed_job
            ≡ some (claim_info f.found))
          × (a.state ≡ replaced state f (claimed_by input.worker_id now f.found))
  unfolding claim_job_mutation claim_job_response apply_mutation
  claim_job-answers input =
      elim (claim_job-first state input.worker_id now (wanted_types input.types)) [
        | inl (e, misses) ↦ inl (ap (λ p. p.1) e, ap (λ p. p.0) e, misses)
        | inr (f, e) ↦ inr (f, ap (λ p. p.1) e, ap (λ p. p.0) e)
      ]
