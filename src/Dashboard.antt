-- ===== src/Dashboard.antt =====
-- apps/web/app/lib/use-queue.ts: the hook of the dashboard that polls the broker and keeps a log of what
-- has changed since the poll before. The refs and the state of the hook are one record.
pub mod Activity
pub mod Quiet
use osqueue.Base.{
  ℕ, zero, suc, ◌+◌, ◌-◌, String, ◌<>◌, Bool, true, false, not, ◌&&◌, List, [], ◌∷◌, ◌++◌, Option,
  none, some, if◌then◌else◌, ◌==◌, string_eq, ltb, leb, nat_eq, length, keep, is_some,
}
use osqueue.Base.Dict.{Dict, lookup, insert}
use osqueue.Types.Errors.{Result, ok, thrown}
use osqueue.Broker.Service.{JobInfo, ListJobsResponse}

pub data EventType : Type 0 where
  submitted claimed completed error : EventType

pub record ActivityEvent : Type 0 where
  pub id : String
  pub timestamp : ℕ
  pub message : String
  pub type : EventType

pub record QueueData : Type 0 where
  pub jobs : List JobInfo
  pub total : ℕ
  pub unclaimed : ℕ
  pub in_progress : ℕ
  pub completed_total : ℕ
  pub broker_address : String
  pub connected : Bool
  pub activity : List ActivityEvent

-- `drawn` counts the identifiers that were drawn for events.
pub record QueueView : Type 0 where
  pub queue_data : QueueData
  pub prev_jobs : Dict String
  pub prev_total : ℕ
  pub activity : List ActivityEvent
  pub fail_count : ℕ
  pub drawn : ℕ

abbrev pub new_view : QueueView
new_view = record {
  queue_data = record {
    jobs = [];
    total = 0;
    unclaimed = 0;
    in_progress = 0;
    completed_total = 0;
    broker_address = "";
    connected = false;
    activity = [];
  };
  prev_jobs = [];
  prev_total = 0;
  activity = [];
  fail_count = 0;
  drawn = 0;
}

abbrev pub max_activity : ℕ
max_activity = 100

-- `text.slice(0, n)` of a text in the basic plane of Unicode.
pub slice : ℕ → String → String
slice zero text = ""
slice (suc n) String.[] = ""
slice (suc n) (String.◌∷◌ c text) = String.◌∷◌ c (slice n text)

-- An event before it gets its identifier and its time.
pub record Notice : Type 0 where
  pub message : String
  pub type : EventType

unfoldable pub current_jobs : Dict String → List JobInfo → Dict String
current_jobs d [] = d
current_jobs d (job ∷ jobs) = current_jobs (insert job.id job.status d) jobs

submitted_notice : JobInfo → Notice
submitted_notice job = record {
  message =
      "Job "
      <> slice 8 job.id
      <> " submitted"
      <> (if job.type == "" then "" else " (" <> job.type <> ")");
  type = EventType.submitted;
}

-- The jobs that are there now and were not before.
unfoldable pub new_notices : Dict String → List JobInfo → List Notice
unfolding submitted_notice
new_notices prev [] = []
new_notices prev (job ∷ jobs) =
    let rest = new_notices prev jobs in
    if is_some (lookup job.id prev) then rest else submitted_notice job ∷ rest

-- `res.jobs.find((j) => j.id === id)`
find_job : String → List JobInfo → Option JobInfo
find_job id [] = none
find_job id (job ∷ jobs) = if job.id == id then some job else find_job id jobs

claimed_by_text : Option JobInfo → String
claimed_by_text none = ""
claimed_by_text (some job) = if job.worker_id == "" then "" else " by " <> slice 8 job.worker_id

unfoldable pub completed_notice : String → Notice
completed_notice id = record {
  message = "Job " <> slice 8 id <> " completed";
  type = EventType.completed;
}

claimed_notice : String → List JobInfo → Notice
unfolding find_job claimed_by_text
claimed_notice id jobs = record {
  message = "Job " <> slice 8 id <> " claimed" <> claimed_by_text (find_job id jobs);
  type = EventType.claimed;
}

-- `!currentStatus`
abbrev pub is_gone : Option String → Bool
is_gone none = true
is_gone (some status) = status == ""

-- What has become of one job of the poll before.
unfoldable pub change_notices : String → String → Option String → List JobInfo → List Notice
unfolding claimed_notice
change_notices id prev_status current jobs =
    if is_gone current
    then completed_notice id ∷ []
    else if prev_status == "unclaimed" && is_in_progress current
    then claimed_notice id jobs ∷ []
    else []
  where
    is_in_progress : Option String → Bool
    is_in_progress none = false
    is_in_progress (some status) = status == "in_progress"

unfoldable pub changes : Dict String → Dict String → List JobInfo → List Notice
changes current [] jobs = []
changes current ((id, prev_status) ∷ prev) jobs =
    change_notices id prev_status (lookup id current) jobs ++ changes current prev jobs

abbrev is_completed : Notice → Bool
is_completed n = elim n.type [ EventType.completed ↦ true | _ ↦ false ]

repeated : ℕ → List Notice
repeated zero = []
repeated (suc n) = record { message = "Job completed"; type = EventType.completed } ∷ repeated n

-- Completions that only the counter shows.
counted_notices : ℕ → ℕ → List Notice → List Notice
unfolding repeated
counted_notices completed_total prev_total notices =
    if ltb prev_total completed_total
      && nat_eq (length (keep is_completed notices)) 0
      && ltb 0 prev_total
    then repeated (completed_total - prev_total)
    else []

unfoldable pub notices_of : ListJobsResponse → QueueView → List Notice
unfolding counted_notices
notices_of res v =
    let notices =
      new_notices v.prev_jobs res.jobs ++ changes (current_jobs [] res.jobs) v.prev_jobs res.jobs in
    notices ++ counted_notices res.completed_total v.prev_total notices

abbrev pub take : {A : Type 0} → ℕ → List A → List A
take zero xs = []
take (suc n) [] = []
take (suc n) (x ∷ xs) = x ∷ take n xs

unfoldable pub log_events : List ActivityEvent → List ActivityEvent → List ActivityEvent
log_events [] activity = activity
log_events (e ∷ events) activity = take max_activity (e ∷ events ++ activity)

module _ (uuid : ℕ → String) where
  unfoldable pub stamp : ℕ → ℕ → List Notice → List ActivityEvent
  stamp now drawn [] = []
  stamp now drawn (n ∷ notices) =
      record { id = uuid drawn; timestamp = now; message = n.message; type = n.type }
      ∷ stamp now (suc drawn) notices

  -- `poll`, at the time `now`, where `listJobs` returns or throws.
  unfoldable pub poll : ℕ → Result {0} ListJobsResponse → QueueView → QueueView
  unfolding log_events
  poll now (thrown e) v =
      let failures = suc v.fail_count in
      if leb 3 failures
      then record v {
        fail_count = failures;
        queue_data = record (v.queue_data) { connected = false };
      }
      else record v { fail_count = failures }
  poll now (ok res) v =
      let notices = notices_of res v in
      let activity = log_events (stamp now v.drawn notices) v.activity in
      record {
        queue_data = record {
          jobs = res.jobs;
          total = res.total;
          unclaimed = res.unclaimed;
          in_progress = res.in_progress;
          completed_total = res.completed_total;
          broker_address = res.broker_address;
          connected = true;
          activity = activity;
        };
        prev_jobs = current_jobs [] res.jobs;
        prev_total = res.completed_total;
        activity = activity;
        fail_count = 0;
        drawn = v.drawn + length notices;
      }

  -- Polls one after the other, each at its time and with what it was answered.
  unfoldable pub polls : List (ℕ × Result {0} ListJobsResponse) → QueueView → QueueView
  polls [] v = v
  polls ((now, answer) ∷ rest) v = polls rest (poll now answer v)
