-- ===== src/Queue/Operations.antt =====
-- Which job each operation of packages/core/src/state.ts touches, on every branch.
use osqueue.Base.{
  ℕ, ◌+◌, ◌≡◌, ◌⊎◌, inl, inr, String, Bool, false, List, ◌∷◌, ◌++◌, Option, none, some, length, All,
  First, locate, get_elem?-First, set-First, drop_index-First,
}
use osqueue.Types.{JobId, WorkerId, Job, QueueState}
use osqueue.Queue.{
  claimable, held_by, claimed_by, claim_info, claim_found, claim_at, claim_job, heartbeat_found,
  heartbeat_at, heartbeat_job, complete_found, complete_job,
}

-- The state with `job` in the place of the job that was found, and the state without that job.
abbrev pub replaced : {test : Job → Bool} (s : QueueState) → First test s.jobs → Job → QueueState
replaced s f job = record s { jobs = f.before ++ job ∷ f.behind }

abbrev pub removed : {test : Job → Bool} (s : QueueState) → First test s.jobs → QueueState
removed s f = record s { jobs = f.before ++ f.behind; completed_total = s.completed_total + 1 }

module _ (s : QueueState) (worker_id : WorkerId) (now : ℕ) (types : Option (List String)) where
  claim_found_lem :
      (f : First (claimable types) s.jobs)
      → claim_found s worker_id now (some (length f.before))
        ≡ (replaced s f (claimed_by worker_id now f.found), some (claim_info f.found))
  unfolding claim_found
  claim_found_lem f = rw (get_elem?-First s.jobs f, claim_at) (rw (set-First s.jobs f))

  -- If no job is unclaimed and of a wanted type, `claimJob` changes nothing and returns null.
  -- Otherwise it takes the first such job: that job alone is changed, in its place, and its
  -- identifier, payload and type are returned.
  pub claim_job-first :
      (claim_job s worker_id now types ≡ (s, none))
        × All (λ job. claimable types job ≡ false) s.jobs
      ⊎ (f : First (claimable types) s.jobs) × (claim_job s worker_id now types
          ≡ (replaced s f (claimed_by worker_id now f.found), some (claim_info f.found)))
  unfolding claim_job
  claim_job-first = elim (locate (claimable types) s.jobs) [
    | inl (e, misses) ↦ inl (rw e, misses)
    | inr (f, e) ↦ inr (f, rw e (claim_found_lem f))
  ]

module _ (s : QueueState) (job_id : JobId) (worker_id : WorkerId) where
  abbrev pub NobodyHolds : Type 0
  NobodyHolds = All (λ job. held_by job_id worker_id job ≡ false) s.jobs

  abbrev pub Held : Type 0
  Held = First (held_by job_id worker_id) s.jobs

  heartbeat_found_lem :
      (now : ℕ) (f : Held)
      → heartbeat_found s now (some (length f.before))
        ≡ replaced s f (record (f.found) { heartbeat = some now })
  unfolding heartbeat_found
  heartbeat_found_lem now f = rw (get_elem?-First s.jobs f, heartbeat_at) (rw (set-First s.jobs f))

  -- `heartbeatJob` sets the heartbeat of the first job with this identifier that the worker has in
  -- progress, and nothing else; without such a job it changes nothing.
  pub heartbeat_job-first :
      (now : ℕ)
      → (heartbeat_job s job_id worker_id now ≡ s) × NobodyHolds
        ⊎ (f : Held) × (heartbeat_job s job_id worker_id now
            ≡ replaced s f (record (f.found) { heartbeat = some now }))
  unfolding heartbeat_job
  heartbeat_job-first now = elim (locate (held_by job_id worker_id) s.jobs) [
    | inl (e, misses) ↦ inl (rw e, misses)
    | inr (f, e) ↦ inr (f, rw e (heartbeat_found_lem now f))
  ]

  -- `completeJob` takes the first job with this identifier that the worker has in progress out of
  -- the list and counts it; without such a job it changes nothing.
  pub complete_job-first :
      (complete_job s job_id worker_id ≡ s) × NobodyHolds
      ⊎ (f : Held) × (complete_job s job_id worker_id ≡ removed s f)
  unfolding complete_job complete_found
  complete_job-first = elim (locate (held_by job_id worker_id) s.jobs) [
    | inl (e, misses) ↦ inl (rw e, misses)
    | inr (f, e) ↦ inr (f, rw e (rw (drop_index-First s.jobs f)))
  ]
