-- ===== src/Tests/Dashboards.antt =====
-- The dashboard against a broker that fails, answers, and fails again.
use osqueue.Base.{◌≡◌, refl, string_eq, ℕ, List, [], ◌∷◌}
use osqueue.Base.Decimal.{decimal}
use osqueue.Types.Errors.{Result, ok, thrown, native_error}
use osqueue.Broker.Service.{JobInfo, ListJobsResponse}
use osqueue.Broker.Calls.{no_bytes}
use osqueue.Dashboard.Quiet.{poll-poll}
use osqueue.Dashboard.{poll, new_view, polls}
use osqueue.Dashboard.Activity.{IsKept, polls-activity}

abbrev waiting : JobInfo
waiting = record {
  id = "j";
  status = "unclaimed";
  payload = no_bytes;
  type = "email";
  worker_id = "";
  created_at = 1;
  attempts = 0;
  max_attempts = 0;
  heartbeat = 0;
}

abbrev listing : List JobInfo → ListJobsResponse
listing jobs = record {
  jobs = jobs;
  total = 1;
  unclaimed = 1;
  in_progress = 0;
  completed_total = 0;
  broker_address = "b";
}

abbrev answers : List (ℕ × Result {0} ListJobsResponse)
answers =
    (1, thrown (native_error "down"))
    ∷ (2, ok (listing (waiting ∷ [])))
    ∷ (3, ok (listing []))
    ∷ (4, thrown (native_error "down"))
    ∷ (5, thrown (native_error "down"))
    ∷ (6, thrown (native_error "down"))
    ∷ []

polls-activity_example : IsKept (polls decimal answers new_view)
polls-activity_example = polls-activity decimal answers

-- The broker is first reached by the first of the two polls.
poll-poll_example :
    let seen = poll decimal 2 (ok (listing (waiting ∷ []))) new_view in
    poll decimal 3 (ok (listing (waiting ∷ []))) seen ≡ seen
unfolding string_eq
poll-poll_example = poll-poll decimal 2 3 (listing (waiting ∷ [])) new_view (refl, tt)
