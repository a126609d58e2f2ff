-- ===== src/Worker.antt =====
-- packages/worker/src/worker.ts: the worker that claims jobs, hands them to handlers, and sends
-- heartbeats while they run. What the event loop runs between two `await`s is one function here; a
-- call of `tryClaimAndProcess` is a task, which stands at the `await` that it is at. The client,
-- the schemas and the handlers are outside: what they answer is an argument, and what is asked of
-- them is put down in `requests`.
pub mod Counting
pub mod Reach
pub mod Activity
use osqueue.Base.{
  ℕ, suc, ◌+◌, ◌-◌, String, Bool, true, false, not, List, [], ◌∷◌, ◌++◌, Option, none, some, length,
  get_elem?, set, keep, if◌then◌else◌, ltb, nat_eq, map, or_default, is_some,
}
use osqueue.Base.Dict.{Dict, lookup, insert, erase}
use osqueue.Types.{JobId, WorkerId, Value}
use osqueue.Types.Errors.{Thrown, Result, ok, thrown}

pub record ClaimedJobInfo : Type 0 where
  pub job_id : JobId
  pub type : String
  pub payload : Value

-- Where a task waits: for the claim, for the completion of a job with an invalid payload, for the
-- handler or the completion of a job (with whether its signal is aborted), or to be reconnected.
pub data Task : Type 0 where
  claiming reconnecting ended : Task
  discarding : ClaimedJobInfo → Task
  handling completing : ClaimedJobInfo → Bool → Task

-- What is asked of the client, and the callbacks of the options.
pub data Request : Type 0 where
  claim_job : Option (List String) → Request
  complete_job send_heartbeat : JobId → Request
  reconnect : Request
  run_handler : JobId → Value → Request
  on_job_claimed on_job_completed : ClaimedJobInfo → Request
  on_job_failed : ClaimedJobInfo → Thrown → Request

-- `handlers` are the keys of the handler map, each with whether its value is a handler, and a
-- schema of the registry gives the parsed payload, if it is valid.
pub record WorkerOptions : Type 0 where
  pub handlers : Dict Bool
  pub schemas : Dict (Value → Option Value)
  pub concurrency : Option ℕ

-- `abort_controllers` and `heartbeat_timers` give the task of a job; `intervals` are the tasks
-- whose heartbeat interval is live, each with the job that it is for.
pub record Worker : Type 0 where
  pub running : Bool
  pub active_jobs : ℕ
  pub poll_timer : Bool
  pub abort_controllers : Dict ℕ
  pub heartbeat_timers : Dict ℕ
  pub intervals : List (ℕ × JobId)
  pub tasks : List Task
  pub requests : List Request

abbrev pub new_worker : Worker
new_worker = record {
  running = false;
  active_jobs = 0;
  poll_timer = false;
  abort_controllers = [];
  heartbeat_timers = [];
  intervals = [];
  tasks = [];
  requests = [];
}

abbrev pub ask : Request → Worker → Worker
ask r w = record w { requests = w.requests ++ r ∷ [] }

abbrev pub move : ℕ → Task → Worker → Worker
move i t w = record w { tasks = set w.tasks i t }

-- The `finally` of a job that was handled.
unfoldable pub finish : ℕ → ClaimedJobInfo → Worker → Worker
unfolding erase
finish i job w = move i ended (record w {
  intervals = keep (λ p. not (nat_eq p.0 i)) w.intervals;
  heartbeat_timers = erase job.job_id w.heartbeat_timers;
  abort_controllers = erase job.job_id w.abort_controllers;
  active_jobs = w.active_jobs - 1;
})

-- The `catch` of a handler or a completion, with the `finally`.
unfoldable pub fail : ℕ → ClaimedJobInfo → Bool → Thrown → Worker → Worker
unfolding finish
fail i job aborted e w = finish i job (if not aborted then ask (on_job_failed job e) w else w)

-- `controller.abort()`
abbrev pub aborted_task : Task → Task
aborted_task (handling job aborted) = handling job true
aborted_task (completing job aborted) = completing job true
aborted_task t = t

abort_at : List Task → ℕ → Option Task → List Task
abort_at tasks i none = tasks
abort_at tasks i (some t) = set tasks i (aborted_task t)

pub abort_all : List (String × ℕ) → List Task → List Task
unfolding abort_at
abort_all [] tasks = tasks
abort_all ((id, i) ∷ rest) tasks = abort_all rest (abort_at tasks i (get_elem? tasks i))

pub cleared : List (String × ℕ) → List (ℕ × JobId) → List (ℕ × JobId)
cleared [] intervals = intervals
cleared ((id, i) ∷ rest) intervals = cleared rest (keep (λ p. not (nat_eq p.0 i)) intervals)

-- `stop`, up to the loop that waits until no job is active.
unfoldable pub stop_worker : Worker → Worker
unfolding abort_all cleared
stop_worker w = record w {
  running = false;
  poll_timer = false;
  tasks = abort_all w.abort_controllers w.tasks;
  intervals = cleared w.heartbeat_timers w.intervals;
  heartbeat_timers = [];
}

-- `stop` returns.
abbrev pub is_idle : Worker → Bool
is_idle w = nat_eq w.active_jobs 0

-- The callback of a heartbeat interval.
unfoldable pub tick : JobId → Worker → Worker
tick id w = ask (send_heartbeat id) w

module _ (o : WorkerOptions) where
  abbrev handled_types : List String
  handled_types = map (λ h. h.0) o.handlers

  abbrev claim_types : Option (List String)
  claim_types = if ltb 0 (length handled_types) then some handled_types else none

  unfoldable pub try_claim : Worker → Worker
  try_claim w = ask (claim_job claim_types) (record w { tasks = w.tasks ++ claiming ∷ [] })

  unfoldable pub poll : Worker → Worker
  unfolding try_claim
  poll w =
      if not w.running
      then w
      else (let w' = if ltb w.active_jobs (or_default o.concurrency 1) then try_claim w else w in
          record w' { poll_timer = true })

  unfoldable pub start_worker : Worker → Worker
  unfolding poll
  start_worker w = if w.running then w else poll (record w { running = true })

  -- The job goes to its handler.
  unfoldable pub begin_job : ℕ → ClaimedJobInfo → Value → Worker → Worker
  unfolding insert
  begin_job i job validated w = move i (handling job false) (record w {
    active_jobs = w.active_jobs + 1;
    abort_controllers = insert job.job_id i w.abort_controllers;
    heartbeat_timers = insert job.job_id i w.heartbeat_timers;
    intervals = w.intervals ++ (i, job.job_id) ∷ [];
    requests = w.requests ++ run_handler job.job_id validated ∷ [];
  })

  -- The test of the schema, where there is one, and then that of the handler.
  with_payload : ℕ → ClaimedJobInfo → Option Value → Worker → Worker
  unfolding begin_job lookup
  with_payload i job none w = move i (discarding job) (ask (complete_job job.job_id) w)
  with_payload i job (some validated) w =
      if or_default (lookup job.type o.handlers) false
      then begin_job i job validated w
      else move i ended w

  unfoldable pub validate : ClaimedJobInfo → Option (Value → Option Value) → Option Value
  validate job none = some job.payload
  validate job (some schema) = schema job.payload

  unfoldable pub claim_answered : ℕ → Result (Option ClaimedJobInfo) → Worker → Worker
  unfolding with_payload validate lookup
  claim_answered i (thrown e) w = move i reconnecting (ask reconnect w)
  claim_answered i (ok none) w = move i ended w
  claim_answered i (ok (some job)) w =
      with_payload i job (validate job (lookup job.type o.schemas)) (ask (on_job_claimed job) w)

unfoldable pub discard_answered : ℕ → Result (Unit {0}) → Worker → Worker
discard_answered i (ok _) w = move i ended w
discard_answered i (thrown e) w = move i reconnecting (ask reconnect w)

unfoldable pub handler_answered : ℕ → ClaimedJobInfo → Bool → Result (Unit {0}) → Worker → Worker
unfolding fail
handler_answered i job aborted (ok _) w =
    move i (completing job aborted) (ask (complete_job job.job_id) w)
handler_answered i job aborted (thrown e) w = fail i job aborted e w

unfoldable pub complete_answered : ℕ → ClaimedJobInfo → Bool → Result (Unit {0}) → Worker → Worker
unfolding fail finish
complete_answered i job aborted (ok _) w = finish i job (ask (on_job_completed job) w)
complete_answered i job aborted (thrown e) w = fail i job aborted e w

-- The client has reconnected, or could not.
unfoldable pub reconnect_answered : ℕ → Worker → Worker
reconnect_answered i w = move i ended w
