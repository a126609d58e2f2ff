-- ===== src/Worker/Reach.antt =====
-- Every order in which timers fire and answers arrive at the worker of
-- packages/worker/src/worker.ts.
use osqueue.Base.{
  ℕ, ◌≡◌, ◌≢◌, refl, sym, ◌∙◌, inl, inr, Bool, true, false, not, List, [], ◌∷◌, ◌++◌, Option, none,
  some, arith, get_elem?, set, All, All-append, String, if◌then◌else◌, nat_eq, ltb, or_default,
}
use osqueue.Types.{JobId, Value}
use osqueue.Types.Errors.{Thrown, Result, ok, thrown}
use osqueue.Worker.{
  ClaimedJobInfo, Task, claiming, reconnecting, ended, discarding, handling, completing, Request,
  WorkerOptions, Worker, ask, move, finish, fail, abort_all, cleared, stop_worker, tick, try_claim,
  poll, start_worker, begin_job, with_payload, claim_answered, discard_answered, handler_answered,
  complete_answered, reconnect_answered,
}
use osqueue.Worker.Counting.{
  job_at-there, job_of, weight, at_work, job_at, at_work-set, at_work-append, job_at-append,
  job_at-set, abort_all_lem, All-keep, All-to,
}

-- What can happen next: a call of `start` or `stop`, a timer that fires, or an answer to a task that
-- waits for it.
pub data Step (o : WorkerOptions) : Worker → Worker → Type 0 where
  starts : (w : Worker) → Step o w (start_worker o w)
  stops : (w : Worker) → Step o w (stop_worker w)
  polls : (w : Worker) → w.poll_timer ≡ true → Step o w (poll o (record w { poll_timer = false }))
  beats :
      (w : Worker) (k i : ℕ) (id : JobId)
      → get_elem? w.intervals k ≡ some (i, id)
      → Step o w (tick id w)
  claims :
      (w : Worker) (i : ℕ) (r : Result (Option ClaimedJobInfo))
      → get_elem? w.tasks i ≡ some claiming
      → Step o w (claim_answered o i r w)
  discards :
      (w : Worker) (i : ℕ) (job : ClaimedJobInfo) (r : Result (Unit {0}))
      → get_elem? w.tasks i ≡ some (discarding job)
      → Step o w (discard_answered i r w)
  handles :
      (w : Worker) (i : ℕ) (job : ClaimedJobInfo) (aborted : Bool) (r : Result (Unit {0}))
      → get_elem? w.tasks i ≡ some (handling job aborted)
      → Step o w (handler_answered i job aborted r w)
  completes :
      (w : Worker) (i : ℕ) (job : ClaimedJobInfo) (aborted : Bool) (r : Result (Unit {0}))
      → get_elem? w.tasks i ≡ some (completing job aborted)
      → Step o w (complete_answered i job aborted r w)
  reconnects :
      (w : Worker) (i : ℕ)
      → get_elem? w.tasks i ≡ some reconnecting
      → Step o w (reconnect_answered i w)

pub data Reaches (o : WorkerOptions) : Worker → Worker → Type 0 where
  at_start : (w : Worker) → Reaches o w w
  and_then : (w u v : Worker) → Reaches o w u → Step o u v → Reaches o w v

abbrev pub Beats : List Task → ℕ × JobId → Type 0
Beats tasks (i, id) = job_at tasks i ≡ some id

-- `activeJobs` is the number of the tasks with a job at work, and each live interval is that of
-- such a task, for its job.
pub record IsConsistent (w : Worker) : Type 0 where
  pub counted : w.active_jobs ≡ at_work w.tasks
  pub beating : All (Beats w.tasks) w.intervals

-- A task without a job at work goes on to one without.
move-IsConsistent :
    (w : Worker) (i : ℕ) (t t' : Task)
    → IsConsistent w
    → get_elem? w.tasks i ≡ some t
    → job_of t ≡ job_of t'
    → weight t ≡ weight t'
    → IsConsistent (move i t' w)
move-IsConsistent w i t t' h at e n = record {
  counted = omega (arith, h.counted, n, at_work-set w.tasks i t t' at);
  beating =
      All-to (Beats w.tasks) (Beats (set w.tasks i t')) w.intervals
        (λ p b. elim (job_at-set w.tasks i p.0 t t' at) [
          | inl (same, before, after) ↦ after ∙ sym e ∙ sym before ∙ b
          | inr kept ↦ kept ∙ b
        ])
        h.beating;
}

ask-IsConsistent : (r : Request) (w : Worker) → IsConsistent w → IsConsistent (ask r w)
ask-IsConsistent r w h = record { counted = h.counted; beating = h.beating }

finish-IsConsistent :
    (w : Worker) (i : ℕ) (t : Task) (job : ClaimedJobInfo)
    → IsConsistent w
    → get_elem? w.tasks i ≡ some t
    → weight t ≡ 1
    → IsConsistent (finish i job w)
unfolding finish
finish-IsConsistent w i t job h at n = record {
  counted = omega (arith, h.counted, n, at_work-set w.tasks i t ended at);
  beating =
      All-keep (Beats w.tasks) (Beats (set w.tasks i ended)) (λ p. not (nat_eq p.0 i)) w.intervals
        (λ p c b. elim (job_at-set w.tasks i p.0 t ended at) [
          | inl (same, before, after) ↦ absurd (differ p.0 c same)
          | inr kept ↦ kept ∙ b
        ])
        h.beating;
}
  where
    differ : (j : ℕ) → not (nat_eq j i) ≡ true → i ≢ j
    differ j c e = ground arith

fail-IsConsistent :
    (w : Worker) (i : ℕ) (t : Task) (job : ClaimedJobInfo) (aborted : Bool) (e : Thrown)
    → IsConsistent w
    → get_elem? w.tasks i ≡ some t
    → weight t ≡ 1
    → IsConsistent (fail i job aborted e w)
unfolding fail
fail-IsConsistent w i t job true e h at n = finish-IsConsistent w i t job h at n
fail-IsConsistent w i t job false e h at n =
    finish-IsConsistent (ask (Request.on_job_failed job e) w) i t job
      (ask-IsConsistent (Request.on_job_failed job e) w h) at n

try_claim-IsConsistent :
    (o : WorkerOptions) (w : Worker) → IsConsistent w → IsConsistent (try_claim o w)
unfolding try_claim
try_claim-IsConsistent o w h = record {
  counted = omega (arith, h.counted, at_work-append w.tasks claiming);
  beating =
      All-to (Beats w.tasks) (Beats (w.tasks ++ claiming ∷ [])) w.intervals
        (λ p b. job_at-append w.tasks claiming p.0 p.1 b) h.beating;
}

if-IsConsistent :
    (b : Bool) (x y : Worker) → IsConsistent x → IsConsistent y → IsConsistent (if b then x else y)
if-IsConsistent true x y h h' = h
if-IsConsistent false x y h h' = h'

poll-IsConsistent : (o : WorkerOptions) (w : Worker) → IsConsistent w → IsConsistent (poll o w)
unfolding poll
poll-IsConsistent o w h = if-IsConsistent (not w.running) w _ h (
    let h' =
      if-IsConsistent (ltb w.active_jobs (or_default o.concurrency 1)) (try_claim o w) w
        (try_claim-IsConsistent o w h) h in
    record { counted = h'.counted; beating = h'.beating })

start-IsConsistent :
    (o : WorkerOptions) (w : Worker) → IsConsistent w → IsConsistent (start_worker o w)
unfolding start_worker
start-IsConsistent o w h = if-IsConsistent w.running w (poll o (record w { running = true })) h (
    poll-IsConsistent o (record w { running = true })
      (record { counted = h.counted; beating = h.beating }))

cleared-All :
    (P : ℕ × JobId → Type 0) (timers : List (String × ℕ)) (intervals : List (ℕ × JobId))
    → All P intervals
    → All P (cleared timers intervals)
unfolding cleared
cleared-All P [] intervals h = h
cleared-All P ((id, i) ∷ rest) intervals h =
    cleared-All P rest _ (All-keep P P (λ p. not (nat_eq p.0 i)) intervals (λ p c b. b) h)

stop-IsConsistent : (w : Worker) → IsConsistent w → IsConsistent (stop_worker w)
unfolding stop_worker
stop-IsConsistent w h = record {
  counted = h.counted ∙ sym (abort_all_lem w.abort_controllers w.tasks 0).0;
  beating =
      cleared-All (Beats (abort_all w.abort_controllers w.tasks)) w.heartbeat_timers w.intervals (
        All-to (Beats w.tasks) (Beats (abort_all w.abort_controllers w.tasks)) w.intervals
          (λ p b. (abort_all_lem w.abort_controllers w.tasks p.0).1 ∙ b) h.beating);
}

begin_job-IsConsistent :
    (o : WorkerOptions) (w : Worker) (i : ℕ) (job : ClaimedJobInfo) (validated : Value)
    → IsConsistent w
    → get_elem? w.tasks i ≡ some claiming
    → IsConsistent (begin_job o i job validated w)
unfolding begin_job
begin_job-IsConsistent o w i job validated h at =
    let t' = handling job false in
    record {
      counted = omega (arith, h.counted, at_work-set w.tasks i claiming t' at);
      beating =
          All-append (Beats (set w.tasks i t')) w.intervals ((i, job.job_id) ∷ [])
            (All-to (Beats w.tasks) (Beats (set w.tasks i t')) w.intervals
              (λ p b. elim (job_at-set w.tasks i p.0 claiming t' at) [
                | inl (same, before, after) ↦ absurd (cc)
                | inr kept ↦ kept ∙ b
              ])
              h.beating)
            (job_at-there w.tasks i claiming t' at, tt);
    }

with_payload-IsConsistent :
    (o : WorkerOptions) (w : Worker) (i : ℕ) (job : ClaimedJobInfo) (p : Option Value)
    → IsConsistent w
    → get_elem? w.tasks i ≡ some claiming
    → IsConsistent (with_payload o i job p w)
unfolding with_payload
with_payload-IsConsistent o w i job none h at =
    move-IsConsistent (ask (Request.complete_job job.job_id) w) i claiming (discarding job)
      (ask-IsConsistent (Request.complete_job job.job_id) w h) at refl refl
with_payload-IsConsistent o w i job (some validated) h at =
    if-IsConsistent _ _ _ (begin_job-IsConsistent o w i job validated h at)
      (move-IsConsistent w i claiming ended h at refl refl)

reconnect-IsConsistent :
    (w : Worker) (i : ℕ) (t : Task)
    → IsConsistent w
    → get_elem? w.tasks i ≡ some t
    → job_of t ≡ none
    → weight t ≡ 0
    → IsConsistent (move i reconnecting (ask Request.reconnect w))
reconnect-IsConsistent w i t h at e n =
    move-IsConsistent (ask Request.reconnect w) i t reconnecting
      (ask-IsConsistent Request.reconnect w h) at e n

claim-IsConsistent :
    (o : WorkerOptions) (w : Worker) (i : ℕ) (r : Result (Option ClaimedJobInfo))
    → IsConsistent w
    → get_elem? w.tasks i ≡ some claiming
    → IsConsistent (claim_answered o i r w)
unfolding claim_answered
claim-IsConsistent o w i (thrown e) h at = reconnect-IsConsistent w i claiming h at refl refl
claim-IsConsistent o w i (ok none) h at = move-IsConsistent w i claiming ended h at refl refl
claim-IsConsistent o w i (ok (some job)) h at =
    with_payload-IsConsistent o (ask (Request.on_job_claimed job) w) i job _
      (ask-IsConsistent (Request.on_job_claimed job) w h) at

pub Step-IsConsistent :
    (o : WorkerOptions) (w w' : Worker) → Step o w w' → IsConsistent w → IsConsistent w'
unfolding tick discard_answered handler_answered complete_answered reconnect_answered
Step-IsConsistent o w _ (starts _) h = start-IsConsistent o w h
Step-IsConsistent o w _ (stops _) h = stop-IsConsistent w h
Step-IsConsistent o w _ (polls _ armed) h =
    poll-IsConsistent o (record w { poll_timer = false })
      (record { counted = h.counted; beating = h.beating })
Step-IsConsistent o w _ (beats _ k i id at) h = ask-IsConsistent (Request.send_heartbeat id) w h
Step-IsConsistent o w _ (claims _ i r at) h = claim-IsConsistent o w i r h at
Step-IsConsistent o w _ (discards _ i job (ok _) at) h =
    move-IsConsistent w i (discarding job) ended h at refl refl
Step-IsConsistent o w _ (discards _ i job (thrown e) at) h =
    reconnect-IsConsistent w i (discarding job) h at refl refl
Step-IsConsistent o w _ (handles _ i job aborted (ok _) at) h =
    move-IsConsistent (ask (Request.complete_job job.job_id) w) i (handling job aborted)
      (completing job aborted) (ask-IsConsistent (Request.complete_job job.job_id) w h) at refl refl
Step-IsConsistent o w _ (handles _ i job aborted (thrown e) at) h =
    fail-IsConsistent w i (handling job aborted) job aborted e h at refl
Step-IsConsistent o w _ (completes _ i job aborted (ok _) at) h =
    finish-IsConsistent (ask (Request.on_job_completed job) w) i (completing job aborted) job
      (ask-IsConsistent (Request.on_job_completed job) w h) at refl
Step-IsConsistent o w _ (completes _ i job aborted (thrown e) at) h =
    fail-IsConsistent w i (completing job aborted) job aborted e h at refl
Step-IsConsistent o w _ (reconnects _ i at) h =
    move-IsConsistent w i reconnecting ended h at refl refl
