-- ===== src/Worker/Activity.antt =====
-- What `activeJobs`, the heartbeats and `stop` of packages/worker/src/worker.ts promise, and what
-- they do not.
use osqueue.Base.{
  ℕ, zero, suc, ◌+◌, ◌≡◌, refl, sym, ap, ◌∙◌, Bool, true, false, not, List, [], ◌∷◌, ◌++◌, Option,
  none, some, arith, get_elem?, set, All, String, if◌then◌else◌, nat_eq, ltb, or_default,
}
use mathlib.Core.List.{append-nil, append_assoc}
use osqueue.Base.Dict.{lookup}
use osqueue.Types.{JobId, Value}
use osqueue.Types.Errors.{ok}
use osqueue.Worker.{
  ClaimedJobInfo, Task, claiming, reconnecting, ended, discarding, handling, completing,
  WorkerOptions, Worker, new_worker, aborted_task, abort_at, abort_all, stop_worker, is_idle,
  try_claim, poll, begin_job, with_payload, validate, claim_answered,
}
use osqueue.Worker.Counting.{job_of, weight, at_work, job_at}
use osqueue.Worker.Reach.{Reaches, at_start, and_then, Beats, IsConsistent, Step-IsConsistent}

reached-IsConsistent :
    (o : WorkerOptions) (w u : Worker) → Reaches o w u → IsConsistent w → IsConsistent u
reached-IsConsistent o w _ (at_start _) h = h
reached-IsConsistent o w v (and_then _ u _ r step) h =
    Step-IsConsistent o u v step (reached-IsConsistent o w u r h)

-- However timers fire and answers arrive, `activeJobs` is the number of the jobs that are with
-- their handler or wait for their completion, and each live heartbeat interval is for the job of
-- the task that set it, which is one of these.
pub reached-counts :
    (o : WorkerOptions) (w : Worker)
    → Reaches o new_worker w
    → (w.active_jobs ≡ at_work w.tasks) × All (Beats w.tasks) w.intervals
reached-counts o w r =
    let h = reached-IsConsistent o new_worker w r (record { counted = refl; beating = tt }) in
    (h.counted, h.beating)

at_rest : (t : Task) → weight t ≡ 0 → job_of t ≡ none
at_rest (handling job aborted) e = absurd (omega (arith, e))
at_rest (completing job aborted) e = absurd (omega (arith, e))
at_rest claiming e = refl
at_rest reconnecting e = refl
at_rest ended e = refl
at_rest (discarding job) e = refl

All-at_rest : (ts : List Task) → at_work ts ≡ 0 → All (λ t. job_of t ≡ none) ts
All-at_rest [] e = tt
All-at_rest (t ∷ ts) e = (at_rest t (omega (arith, e)), All-at_rest ts (omega (arith, e)))

no_job_at : (ts : List Task) (i : ℕ) → All (λ t. job_of t ≡ none) ts → job_at ts i ≡ none
no_job_at [] i h = refl
no_job_at (t ∷ ts) zero h = h.0
no_job_at (t ∷ ts) (suc i) h = no_job_at ts i h.1

no_interval :
    (ts : List Task) (intervals : List (ℕ × JobId))
    → All (λ t. job_of t ≡ none) ts
    → All (Beats ts) intervals
    → intervals ≡ []
no_interval ts [] h b = refl
no_interval ts ((i, id) ∷ rest) h (b, _) = let none_there = no_job_at ts i h in absurd (cc)

-- When the wait of `stop` ends, because no job is active, no task has a job with its handler or
-- waits for a job's completion, and no heartbeat interval is live.
pub idle-at_rest :
    (o : WorkerOptions) (w : Worker)
    → Reaches o new_worker w
    → is_idle w ≡ true
    → All (λ t. job_of t ≡ none) w.tasks × (w.intervals ≡ [])
idle-at_rest o w r idle =
    let (counted, beating) = reached-counts o w r in
    let rest = All-at_rest w.tasks (none_at_work w.active_jobs w.tasks idle counted) in
    (rest, no_interval w.tasks w.intervals rest beating)
  where
    none_at_work : (n : ℕ) (ts : List Task) → nat_eq n 0 ≡ true → n ≡ at_work ts → at_work ts ≡ 0
    none_at_work n ts e c = ground arith

set_elsewhere :
    (ts : List Task) (i j : ℕ) (t u : Task)
    → get_elem? ts i ≡ some claiming
    → get_elem? ts j ≡ some t
    → get_elem? (set ts j (aborted_task t)) i ≡ some claiming
set_elsewhere [] i j t u e e' = absurd (cc)
set_elsewhere (x ∷ ts) zero zero t u e e' =
    let same : t ≡ claiming = (cc) in ap (λ t. some (aborted_task t)) same
set_elsewhere (x ∷ ts) zero (suc j) t u e e' = e
set_elsewhere (x ∷ ts) (suc i) zero t u e e' = e
set_elsewhere (x ∷ ts) (suc i) (suc j) t u e e' = set_elsewhere ts i j t u e e'

abort_at-claiming :
    (ts : List Task) (i j : ℕ) (t : Option Task)
    → get_elem? ts i ≡ some claiming
    → get_elem? ts j ≡ t
    → get_elem? (abort_at ts j t) i ≡ some claiming
unfolding abort_at
abort_at-claiming ts i j none e e' = e
abort_at-claiming ts i j (some t) e e' = set_elsewhere ts i j t t e e'

abort_all-claiming :
    (controllers : List (String × ℕ)) (ts : List Task) (i : ℕ)
    → get_elem? ts i ≡ some claiming
    → get_elem? (abort_all controllers ts) i ≡ some claiming
unfolding abort_all
abort_all-claiming [] ts i e = e
abort_all-claiming ((id, j) ∷ rest) ts i e =
    abort_all-claiming rest _ i (abort_at-claiming ts i j (get_elem? ts j) e refl)

set_there :
    (ts : List Task) (i : ℕ) (t t' : Task)
    → get_elem? ts i ≡ some t
    → get_elem? (set ts i t') i ≡ some t'
set_there [] i t t' e = absurd (cc)
set_there (u ∷ ts) zero t t' e = refl
set_there (u ∷ ts) (suc i) t t' e = set_there ts i t t' e

-- A claim that is under way when the worker is stopped is not called back: if it is answered with
-- a job that has a valid payload and a handler, the stopped worker starts the handler, with a
-- signal that is not aborted, and has one active job more.
pub claim_answered-after_stop :
    (o : WorkerOptions) (w : Worker) (i : ℕ) (job : ClaimedJobInfo) (payload : Value)
    → get_elem? w.tasks i ≡ some claiming
    → validate o job (lookup job.type o.schemas) ≡ some payload
    → lookup job.type o.handlers ≡ some true
    → let w' = claim_answered o i (ok (some job)) (stop_worker w) in
      (w'.running ≡ false)
      × (w'.active_jobs ≡ w.active_jobs + 1)
      × (get_elem? w'.tasks i ≡ some (handling job false))
unfolding claim_answered with_payload begin_job stop_worker
claim_answered-after_stop o w i job payload at valid handled =
    rw (valid, with_payload)
      (rw (handled, with_payload)
        (
          refl,
          refl,
          set_there (abort_all w.abort_controllers w.tasks) i claiming (handling job false)
              (abort_all-claiming w.abort_controllers w.tasks i at),
        ))

-- The worker after its poll timer has fired a number of times in a row.
unfoldable pub fired : WorkerOptions → ℕ → Worker → Worker
fired o zero w = w
fired o (suc n) w = poll o (record (fired o n w) { poll_timer = false })

abbrev pub claims_under_way : ℕ → List Task
claims_under_way zero = []
claims_under_way (suc n) = claims_under_way n ++ claiming ∷ []

taken {ℓ} : {A : Type ℓ} {b : Bool} (x y : A) → b ≡ true → (if b then x else y) ≡ x
taken x y e = rw e

refused {ℓ} : {A : Type ℓ} {b : Bool} (x y : A) → b ≡ true → (if not b then x else y) ≡ y
refused x y e = rw e

poll_free :
    (o : WorkerOptions) (w : Worker)
    → w.running ≡ true
    → ltb w.active_jobs (or_default o.concurrency 1) ≡ true
    → poll o w ≡ record (try_claim o w) { poll_timer = true }
unfolding poll
poll_free o w running free =
    refused w _ running
    ∙ ap (λ v. let w' : Worker = record v { poll_timer = true } in w')
        (taken (try_claim o w) w free)

-- `concurrency` does not bound the claims under way: if a running worker has fewer active jobs than
-- that, then however often the poll timer fires before an answer arrives, each time starts
-- another claim.
pub fired-claims :
    (o : WorkerOptions) (n : ℕ) (w : Worker)
    → w.running ≡ true
    → ltb w.active_jobs (or_default o.concurrency 1) ≡ true
    → ((fired o n w).running ≡ true)
      × ((fired o n w).active_jobs ≡ w.active_jobs)
      × ((fired o n w).tasks ≡ w.tasks ++ claims_under_way n)
unfolding fired try_claim
fired-claims o zero w running free = (running, refl, sym (append-nil w.tasks))
fired-claims o (suc n) w running free =
    let (r, a, t) = fired-claims o n w running free in
    let now : Worker = record (fired o n w) { poll_timer = false } in
    let p = poll_free o now r (ap (λ k. ltb k (or_default o.concurrency 1)) a ∙ free) in
    (
      ap (λ v. v.running) p ∙ r,
      ap (λ v. v.active_jobs) p ∙ a,
      ap (λ v. v.tasks) p
          ∙ ap (λ ts. ts ++ claiming ∷ []) t
          ∙ append_assoc w.tasks (claims_under_way n) (claiming ∷ []),
    )
