-- ===== src/Queue/Validity.antt =====
-- What every job of a queue satisfies, whatever operations are applied.
use osqueue.Base.{
  ℕ, suc, ◌≤◌, ◌<◌, max, ◌≡◌, refl, subst, inl, inr, Bool, true, false, List, [], ◌∷◌, ◌++◌, Option,
  none, some, String, arith, All, All-append, All-left, All-right, is_some, or_default, First,
  Bool-cases,
}
use osqueue.Types.{
  JobId, WorkerId, JobStatus, unclaimed, in_progress, Job, QueueState, JobInput, Mutation,
  default_max_attempts,
}
use osqueue.Queue.{
  claimable, claimed_by, claim_job, held_by, heartbeat_job, complete_job, timed_out, exhausted,
  released, expire_jobs, expire_heartbeats, register_broker, new_jobs, enqueue_jobs, apply_mutation,
}
use osqueue.Queue.Operations.{claim_job-first, heartbeat_job-first, complete_job-first}

abbrev pub limit : Job → ℕ
limit job = max 1 (or_default job.max_attempts default_max_attempts)

-- An unclaimed job has no worker and no heartbeat, and an attempt left. A job in progress has
-- both, and has made at least one attempt and no more than it may.
abbrev pub IsSoundAt : JobStatus → Job → Type 0
IsSoundAt unclaimed job =
    (job.worker_id ≡ none) × (job.heartbeat ≡ none) × (job.attempts < limit job)
IsSoundAt in_progress job =
    (is_some job.worker_id ≡ true)
    × (is_some job.heartbeat ≡ true)
    × (1 ≤ job.attempts)
    × (job.attempts ≤ limit job)

abbrev pub IsSound : Job → Type 0
IsSound job = IsSoundAt job.status job

abbrev pub AreSound : QueueState → Type 0
AreSound s = All IsSound s.jobs

claimed_by-IsSound :
    (w : WorkerId) (now : ℕ) (types : Option (List String)) (job : Job)
    → claimable types job ≡ true
    → IsSound job
    → IsSound (claimed_by w now job)
claimed_by-IsSound w now types job h v = ground arith

released-IsSound :
    (now timeout_ms : ℕ) (job : Job)
    → timed_out now timeout_ms job ≡ true
    → exhausted job ≡ false
    → IsSound job
    → IsSound (released job)
unfolding timed_out
released-IsSound now timeout_ms job h e v = ground arith

heartbeat-IsSound :
    (job_id : JobId) (w : WorkerId) (now : ℕ) (job : Job)
    → held_by job_id w job ≡ true
    → IsSound job
    → IsSound (record job { heartbeat = some now })
heartbeat-IsSound job_id w now job h v = ground arith

-- Soundness of a list in which the job that was found is replaced or left out.
module _ {test : Job → Bool} {jobs : List Job} (f : First test jobs) (v : All IsSound jobs) where
  parts : All IsSound (f.before ++ f.found ∷ f.behind)
  parts = subst (All IsSound) f.split v

  pub found-IsSound : IsSound f.found
  found-IsSound = (All-right IsSound f.before _ parts).0

  pub replaced-AreSound : (job : Job) → IsSound job → All IsSound (f.before ++ job ∷ f.behind)
  replaced-AreSound job h =
      All-append IsSound f.before _ (All-left IsSound f.before _ parts)
        (h, (All-right IsSound f.before _ parts).1)

  pub removed-AreSound : All IsSound (f.before ++ f.behind)
  removed-AreSound =
      All-append IsSound f.before _ (All-left IsSound f.before _ parts)
        (All-right IsSound f.before _ parts).1

claim_job-AreSound :
    (s : QueueState) (w : WorkerId) (now : ℕ) (types : Option (List String))
    → AreSound s
    → AreSound (claim_job s w now types).0
claim_job-AreSound s w now types v = elim (claim_job-first s w now types) [
  | inl (e, _) ↦ rw e v
  | inr (f, e) ↦
      rw e
        (replaced-AreSound f v _ (claimed_by-IsSound w now types f.found f.hit (found-IsSound f v)))
]

heartbeat_job-AreSound :
    (s : QueueState) (job_id : JobId) (w : WorkerId) (now : ℕ)
    → AreSound s
    → AreSound (heartbeat_job s job_id w now)
heartbeat_job-AreSound s job_id w now v = elim (heartbeat_job-first s job_id w now) [
  | inl (e, _) ↦ rw e v
  | inr (f, e) ↦
      rw e
        (replaced-AreSound f v _ (heartbeat-IsSound job_id w now f.found f.hit (found-IsSound f v)))
]

complete_job-AreSound :
    (s : QueueState) (job_id : JobId) (w : WorkerId)
    → AreSound s
    → AreSound (complete_job s job_id w)
complete_job-AreSound s job_id w v = elim (complete_job-first s job_id w) [
  | inl (e, _) ↦ rw e v
  | inr (f, e) ↦ rw e (removed-AreSound f v)
]

expire_jobs-AreSound :
    (now timeout_ms : ℕ) (jobs : List Job)
    → All IsSound jobs
    → All IsSound (expire_jobs now timeout_ms jobs)
unfolding expire_jobs
expire_jobs-AreSound now timeout_ms [] v = tt
expire_jobs-AreSound now timeout_ms (job ∷ jobs) (v, vs) =
    elim (Bool-cases (timed_out now timeout_ms job)) [
      | inr h ↦ rw h (v, expire_jobs-AreSound now timeout_ms jobs vs)
      | inl h ↦ elim (Bool-cases (exhausted job)) [
        | inl e ↦ rw (h, e) (expire_jobs-AreSound now timeout_ms jobs vs)
        | inr e ↦
            rw (h, e)
              (
                released-IsSound now timeout_ms job h e v,
                expire_jobs-AreSound now timeout_ms jobs vs,
              )
      ]
    ]

-- The expiry pass keeps all jobs sound: no job is released that has no attempt left.
pub expire_heartbeats-AreSound :
    (s : QueueState) (now timeout_ms : ℕ)
    → AreSound s
    → AreSound (expire_heartbeats s now timeout_ms)
unfolding expire_heartbeats
expire_heartbeats-AreSound s now timeout_ms v = expire_jobs-AreSound now timeout_ms s.jobs v

module _ (uuid : ℕ → JobId) where
  new_jobs-AreSound :
      (drawn now : ℕ) (inputs : List JobInput) → All IsSound (new_jobs uuid drawn now inputs)
  unfolding new_jobs
  new_jobs-AreSound drawn now [] = tt
  new_jobs-AreSound drawn now (p ∷ inputs) =
      ((refl, refl, omega arith), new_jobs-AreSound (suc drawn) now inputs)

  -- Every mutation keeps all jobs sound: the status of a job agrees with its worker and heartbeat,
  -- and it is never attempted more often than its limit (or once, where the limit is 0).
  pub apply_mutation-AreSound :
      (s : QueueState) (m : Mutation) (now drawn : ℕ)
      → AreSound s
      → AreSound (apply_mutation uuid s m now drawn).state
  unfolding apply_mutation enqueue_jobs register_broker
  apply_mutation-AreSound s (Mutation.enqueue inputs) now drawn v =
      All-append IsSound s.jobs _ v (new_jobs-AreSound drawn now inputs)
  apply_mutation-AreSound s (Mutation.claim w types) now drawn v =
      claim_job-AreSound s w now types v
  apply_mutation-AreSound s (Mutation.heartbeat job_id w) now drawn v =
      heartbeat_job-AreSound s job_id w now v
  apply_mutation-AreSound s (Mutation.complete job_id w) now drawn v =
      complete_job-AreSound s job_id w v
  apply_mutation-AreSound s (Mutation.register_broker address timestamp) now drawn v = v
