-- ===== src/Tests/Workers.antt =====
-- The worker on one job: it is claimed, handled and completed.
use osqueue.Base.{◌+◌, ◌≡◌, refl, true, false, [], ◌∷◌, ◌++◌, none, some, get_elem?, All, string_eq}
use osqueue.Base.Dict.{lookup}
use osqueue.Types.{Value}
use osqueue.Types.Errors.{ok}
use osqueue.Worker.{
  ClaimedJobInfo, handling, WorkerOptions, Worker, new_worker, stop_worker, start_worker, try_claim,
  poll, begin_job, validate, claim_answered, handler_answered, complete_answered, finish,
}
use osqueue.Worker.Counting.{at_work, job_of}
use osqueue.Worker.Reach.{Reaches, Beats, at_start, and_then, starts, claims, handles, completes}
use osqueue.Worker.Activity.{
  reached-counts, idle-at_rest, claim_answered-after_stop, fired, claims_under_way, fired-claims,
}

abbrev options : WorkerOptions
options = record { handlers = ("email", true) ∷ []; schemas = []; concurrency = some 1 }

abbrev job : ClaimedJobInfo
job = record { job_id = "j"; type = "email"; payload = Value.number 7 }

abbrev started : Worker
started = start_worker options new_worker

abbrev working : Worker
working = claim_answered options 0 (ok (some job)) started

abbrev handled : Worker
handled = handler_answered 0 job false (ok tt) working

abbrev finished : Worker
finished = complete_answered 0 job false (ok tt) handled

Reaches-working : Reaches options new_worker working
unfolding start_worker poll try_claim
Reaches-working =
    and_then new_worker started working
      (and_then new_worker new_worker started (at_start new_worker) (starts new_worker))
      (claims started 0 (ok (some job)) refl)

Reaches-finished : Reaches options new_worker finished
unfolding start_worker poll try_claim claim_answered begin_job handler_answered lookup string_eq
Reaches-finished =
    and_then new_worker handled finished
      (and_then new_worker working handled Reaches-working
        (handles working 0 job false (ok tt) refl))
      (completes handled 0 job false (ok tt) refl)

reached-counts_example :
    (working.active_jobs ≡ at_work working.tasks) × All (Beats working.tasks) working.intervals
reached-counts_example = reached-counts options working Reaches-working

idle-at_rest_example : All (λ t. job_of t ≡ none) finished.tasks × (finished.intervals ≡ [])
unfolding start_worker poll try_claim claim_answered begin_job handler_answered complete_answered
    finish lookup string_eq
idle-at_rest_example = idle-at_rest options finished Reaches-finished refl

claim_answered-after_stop_example :
    let w' = claim_answered options 0 (ok (some job)) (stop_worker started) in
    (w'.running ≡ false)
    × (w'.active_jobs ≡ started.active_jobs + 1)
    × (get_elem? w'.tasks 0 ≡ some (handling job false))
unfolding start_worker poll try_claim lookup string_eq validate
claim_answered-after_stop_example =
    claim_answered-after_stop options started 0 job (Value.number 7) refl refl refl

fired-claims_example :
    ((fired options 3 started).running ≡ true)
    × ((fired options 3 started).active_jobs ≡ started.active_jobs)
    × ((fired options 3 started).tasks ≡ started.tasks ++ claims_under_way 3)
unfolding start_worker poll try_claim
fired-claims_example = fired-claims options 3 started refl refl
