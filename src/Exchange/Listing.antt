-- ===== src/Exchange/Listing.antt =====
-- The listing of the jobs and the statistics over REST, over WebSocket and over Connect.
use osqueue.Base.{◌≡◌, refl, ap, ◌∙◌, String, List, [], ◌∷◌, Option, none, some, string_eq, map}
use osqueue.Json.{get, ◌>>=◌, option_map}
use osqueue.Types.{Value, no_properties}
use osqueue.Types.Errors.{ok}
use osqueue.Engine.{Engine}
use osqueue.Broker.{QueueJobSnapshot, QueueStatsSnapshot, get_queue_snapshot}
use osqueue.Broker.Service.{service_get_stats, service_list_jobs, snapshot_info}
use osqueue.Broker.Replies.{job_value, job_values, snapshot_value}
use osqueue.Broker.Dispatch.{dispatch_ws, dispatch_named}
use osqueue.Broker.Routes.{get_stats, get_jobs, handle}
use osqueue.Transports.{received, stats_result, job_info, job_infos, list_result}
use osqueue.Transports.Rest.{RestAdapter, on_response, parsed_body, rest_get_stats, rest_list_jobs}
use osqueue.Transports.Ws.{Method}
use osqueue.Transports.Connect.{QueueClient, client_get_stats, client_list_jobs, wrapped}
use osqueue.Exchange.{Outcomes, over_ws, Fetches}
use osqueue.Exchange.Jobs.{rest_request-serve}

job_info-job_value : (job : QueueJobSnapshot) → job_info (job_value job) ≡ some (snapshot_info job)
unfolding job_info get string_eq
job_info-job_value job = by_fields job.payload job.type job.worker_id
  where
    by_fields :
        (payload : Option Value) (type worker_id : Option String)
        → let job' : QueueJobSnapshot = record job {
          payload = payload;
          type = type;
          worker_id = worker_id;
        } in
          job_info (job_value job') ≡ some (snapshot_info job')
    by_fields none none none = refl
    by_fields none none (some w) = refl
    by_fields none (some t) none = refl
    by_fields none (some t) (some w) = refl
    by_fields (some v) none none = refl
    by_fields (some v) none (some w) = refl
    by_fields (some v) (some t) none = refl
    by_fields (some v) (some t) (some w) = refl

job_infos-job_values :
    (jobs : List QueueJobSnapshot) → job_infos (job_values jobs) ≡ some (map snapshot_info jobs)
unfolding job_infos
job_infos-job_values [] = refl
job_infos-job_values (job ∷ jobs) =
    ap (λ i. i >>= λ info. job_infos (job_values jobs) >>= λ infos. some (info ∷ infos))
      (job_info-job_value job)
    ∙ ap (λ i. i >>= λ infos. some (snapshot_info job ∷ infos)) (job_infos-job_values jobs)

list_result-snapshot_value :
    (jobs : List QueueJobSnapshot) (stats : QueueStatsSnapshot)
    → list_result (snapshot_value (jobs, stats))
      ≡ some record {
        jobs = map snapshot_info jobs;
        total = stats.total;
        unclaimed = stats.unclaimed;
        in_progress = stats.in_progress;
        completed_total = stats.completed_total;
        broker_address = stats.broker_address;
      }
unfolding list_result get string_eq
list_result-snapshot_value jobs stats = rw (job_infos-job_values jobs) refl

module _ (print : Value → String) (outcome : Outcomes) (g : Engine) (A : RestAdapter)
    (client : QueueClient) where
  -- The jobs and the counts that a client lists are the same over REST, WebSocket and Connect, for
  -- every cached state of the engine, if `fetch` and the Connect client bring what the broker answers.
  pub list_jobs-agree :
      Fetches print outcome g A get_jobs none
      → client.list_jobs ≡ ok (service_list_jobs g)
      → (rest_list_jobs A ≡ some (ok (service_list_jobs g)))
        × (received list_result (over_ws outcome g Method.list_jobs no_properties)
            ≡ some (ok (service_list_jobs g)))
        × (client_list_jobs client ≡ ok (service_list_jobs g))
  unfolding rest_list_jobs client_list_jobs service_list_jobs on_response parsed_body handle
      dispatch_ws dispatch_named string_eq wrapped
  list_jobs-agree fetches serves =
      let (jobs, stats) = get_queue_snapshot g in
      let read = ap (option_map ok) (list_result-snapshot_value jobs stats) in
      (
        ap (received list_result)
              (rest_request-serve print outcome g A get_jobs none _ fetches refl)
            ∙ read,
        read,
        ap (wrapped "ListJobs") serves,
      )

  -- The same of the statistics.
  get_stats-agree :
      Fetches print outcome g A get_stats none
      → client.get_stats ≡ ok (service_get_stats g)
      → (rest_get_stats A ≡ some (ok (service_get_stats g)))
        × (received stats_result (over_ws outcome g Method.get_stats no_properties)
            ≡ some (ok (service_get_stats g)))
        × (client_get_stats client ≡ ok (service_get_stats g))
  unfolding rest_get_stats client_get_stats service_get_stats on_response parsed_body handle
      dispatch_ws dispatch_named string_eq wrapped stats_result get
  get_stats-agree fetches serves = (
    ap (received stats_result) (rest_request-serve print outcome g A get_stats none _ fetches refl),
    refl,
    ap (wrapped "GetStats") serves,
  )
