-- ===== src/Queue/Expiry.antt =====
-- `expireHeartbeats` of packages/core/src/state.ts and the times and attempts of each job.
use osqueue.Base.{
  ℕ, ◌+◌, ◌≡◌, refl, Bool, false, ◌&&◌, List, [], ◌∷◌, arith, if◌then◌else◌, length, keep, All,
  Option, none, some, ◌≤◌, ◌<◌, ◌∷◌, or_default, ◌∙◌, Bool-cases, inl, inr, ltb, ◌-◌,
}
use osqueue.Types.{Job, QueueState, JobStatus, unclaimed, in_progress}
use osqueue.Queue.{timed_out, exhausted, released, expire_jobs, expire_heartbeats, stale}

module _ (now timeout_ms : ℕ) where
  -- A job that timed out at its last attempt.
  abbrev pub gives_up : Job → Bool
  gives_up job = timed_out now timeout_ms job && exhausted job

  -- What the pass makes of a list of jobs, by the numbers of each job: it drops a job in progress
  -- whose heartbeat is too old and whose attempts are used up, takes it from its worker if it has
  -- attempts left, and keeps every other job as it is.
  pub data Expires : List Job → List Job → Type 0 where
    nothing : Expires [] []
    waits :
        (job : Job) (old new : List Job)
        → job.status ≡ unclaimed
        → Expires old new
        → Expires (job ∷ old) (job ∷ new)
    silent :
        (job : Job) (old new : List Job)
        → job.heartbeat ≡ none
        → Expires old new
        → Expires (job ∷ old) (job ∷ new)
    beats :
        (job : Job) (old new : List Job) (at : ℕ)
        → job.heartbeat ≡ some at
        → now ≤ at + timeout_ms
        → Expires old new
        → Expires (job ∷ old) (job ∷ new)
    drops :
        (job : Job) (old new : List Job) (at : ℕ)
        → job.status ≡ in_progress
        → job.heartbeat ≡ some at
        → at + timeout_ms < now
        → or_default job.max_attempts 3 ≤ job.attempts
        → Expires old new
        → Expires (job ∷ old) new
    frees :
        (job : Job) (old new : List Job) (at : ℕ)
        → job.status ≡ in_progress
        → job.heartbeat ≡ some at
        → at + timeout_ms < now
        → job.attempts < or_default job.max_attempts 3
        → Expires old new
        → Expires (job ∷ old) (
            record {
              id = job.id;
              status = unclaimed;
              payload = job.payload;
              type = job.type;
              heartbeat = none;
              worker_id = none;
              created_at = job.created_at;
              attempts = job.attempts;
              max_attempts = job.max_attempts;
            }
            ∷ new)

  expire_old :
      (job : Job) (old new : List Job) (at : ℕ)
      → job.status ≡ in_progress
      → job.heartbeat ≡ some at
      → at + timeout_ms < now
      → Expires old new
      → Expires (job ∷ old) (if exhausted job then new else released job ∷ new)
  expire_old job old new at es eh late h = elim (Bool-cases (exhausted job)) [
    | inl c ↦ rw c (Expires.drops job old new at es eh late (ground (arith, c)) h)
    | inr c ↦ rw c (Expires.frees job old new at es eh late (ground (arith, c)) h)
  ]

  timed_out-unclaimed : (job : Job) → job.status ≡ unclaimed → timed_out now timeout_ms job ≡ false
  unfolding timed_out
  timed_out-unclaimed job es = rw es refl

  timed_out-none : (job : Job) → job.heartbeat ≡ none → timed_out now timeout_ms job ≡ false
  unfolding timed_out stale
  timed_out-none job eh = rw eh (ground arith)

  timed_out-some :
      (job : Job) (at : ℕ)
      → job.status ≡ in_progress
      → job.heartbeat ≡ some at
      → timed_out now timeout_ms job ≡ ltb timeout_ms (now - at)
  unfolding timed_out stale
  timed_out-some job at es eh = rw (es, eh) refl

  expire_job :
      (job : Job) (old new : List Job) (status : JobStatus) (heartbeat : Option ℕ)
      → job.status ≡ status
      → job.heartbeat ≡ heartbeat
      → Expires old new
      → Expires (job ∷ old) (
          if timed_out now timeout_ms job
          then (if exhausted job then new else released job ∷ new)
          else job ∷ new)
  expire_job job old new unclaimed heartbeat es eh h =
      rw (timed_out-unclaimed job es) (Expires.waits job old new es h)
  expire_job job old new in_progress none es eh h =
      rw (timed_out-none job eh) (Expires.silent job old new eh h)
  expire_job job old new in_progress (some at) es eh h =
      elim (Bool-cases (ltb timeout_ms (now - at))) [
        | inl c ↦
            rw (timed_out-some job at es eh ∙ c)
              (expire_old job old new at es eh (ground (arith, c)) h)
        | inr c ↦
            rw (timed_out-some job at es eh ∙ c)
              (Expires.beats job old new at eh (ground (arith, c)) h)
      ]

  expire_jobs-Expires : (jobs : List Job) → Expires jobs (expire_jobs now timeout_ms jobs)
  unfolding expire_jobs
  expire_jobs-Expires [] = Expires.nothing
  expire_jobs-Expires (job ∷ jobs) =
      expire_job job jobs (expire_jobs now timeout_ms jobs) job.status job.heartbeat refl refl
        (expire_jobs-Expires jobs)

  -- The pass drops a job in progress if its heartbeat is older than the timeout and its attempts
  -- have reached its limit, three if it has none of its own; with attempts left it makes such a
  -- job unclaimed, without worker and heartbeat. A heartbeat that is exactly as old as the timeout
  -- is not too old. Other jobs stay as they are, and so do the order of the jobs and the fields of
  -- the state.
  pub expire_heartbeats-Expires :
      (s : QueueState)
      → let s' = expire_heartbeats s now timeout_ms in
        Expires s.jobs s'.jobs
        × (s'.broker ≡ s.broker)
        × (s'.broker_heartbeat ≡ s.broker_heartbeat)
        × (s'.completed_total ≡ s.completed_total)
  unfolding expire_heartbeats
  expire_heartbeats-Expires s = (expire_jobs-Expires s.jobs, refl, refl, refl)

  pub length-expire_jobs :
      (jobs : List Job)
      → length (expire_jobs now timeout_ms jobs) + length (keep gives_up jobs) ≡ length jobs
  unfolding expire_jobs
  length-expire_jobs [] = omega arith
  length-expire_jobs (job ∷ jobs) = ground (arith, length-expire_jobs jobs)

  -- After a pass no job is timed out at the same time, so a second pass changes nothing.
  expire_jobs-fresh :
      (jobs : List Job)
      → All (λ job. timed_out now timeout_ms job ≡ false) (expire_jobs now timeout_ms jobs)
  unfolding expire_jobs timed_out
  expire_jobs-fresh [] = tt
  expire_jobs-fresh (job ∷ jobs) = ground (arith, expire_jobs-fresh jobs)

  expire_jobs_idle :
      (jobs : List Job)
      → All (λ job. timed_out now timeout_ms job ≡ false) jobs
      → expire_jobs now timeout_ms jobs ≡ jobs
  unfolding expire_jobs
  expire_jobs_idle [] h = refl
  expire_jobs_idle (job ∷ jobs) h = rw h.0 (ground (arith, expire_jobs_idle jobs h.1))

  -- Running the pass twice at one time is running it once.
  pub expire_heartbeats_twice :
      (s : QueueState)
      → expire_heartbeats (expire_heartbeats s now timeout_ms) now timeout_ms
        ≡ expire_heartbeats s now timeout_ms
  unfolding expire_heartbeats
  expire_heartbeats_twice s = rw (expire_jobs_idle _ (expire_jobs-fresh s.jobs))
