-- ===== src/Broker/Routes.antt =====
-- packages/broker/src/server.ts: the routes of the REST interface. Fastify finds the route of a
-- request, parses its body and prints what the handler returns; what a handler throws goes to the
-- error handler.
use osqueue.Base.{◌≡◌, ap, ◌∙◌, false, ℕ, Option, none, some, if◌then◌else◌}
use osqueue.Json.{
  get, ◌>>=◌, as_text, as_number, as_object, as_text_array, required, optional, option_map,
}
use osqueue.Json.States.{state_value, as_state, as_state-state_value}
use osqueue.Storage.Throttled.{ThrottleStats}
use osqueue.Types.{
  QueueState, JobId, WorkerId, Value, no_properties, property, Mutation, MutationResult,
}
use osqueue.Types.Errors.{Thrown, Result, ok, thrown, is_tagged_error}
use osqueue.Engine.{Engine, get_cached_state}
use osqueue.Broker.{SubmitJobInput, ClaimJobInput, get_queue_stats, get_queue_snapshot}
use osqueue.Broker.Calls.{
  Call, returning, map_call, settle, submit_job_operation, claim_job_operation, heartbeat_operation,
  complete_job_operation,
}
use osqueue.Broker.Replies.{
  submitted_value, claimed_value, stats_value, snapshot_value, wrap_protocol, tag_and_message,
  error_value,
}

-- The routes of the queue's operations, with the identifier that the path carries.
pub data Route : Type 0 where
  post_jobs post_claim : Route
  post_heartbeat post_complete : JobId → Route
  get_stats get_jobs get_health : Route

pub record Reply : Type 0 where
  pub status : ℕ
  pub body : Option Value

-- The casts of the bodies.
submit_body : Value → Option SubmitJobInput
submit_body body = do
  ps ← as_object body
  type ← optional as_text (get "type" ps)
  max_attempts ← optional as_number (get "maxAttempts" ps)
  some record { payload = get "payload" ps; type = type; max_attempts = max_attempts }

claim_body : Value → Option ClaimJobInput
claim_body body = do
  ps ← as_object body
  worker_id ← required as_text (get "workerId" ps)
  types ← optional as_text_array (get "types" ps)
  some record { worker_id = worker_id; types = types }

worker_body : Value → Option WorkerId
worker_body body = do ps ← as_object body; required as_text (get "workerId" ps)

abbrev pub replied : Value → Reply
replied v = record { status = 200; body = some v }

abbrev pub no_content : Reply
no_content = record { status = 204; body = none }

-- The handler of a route, for a body of the declared type.
unfoldable pub handle : Engine → Route → Option Value → Option (Call Reply)
unfolding submit_body claim_body worker_body
handle g post_jobs none = none
handle g post_jobs (some body) = do
  input ← submit_body body
  some (map_call (λ id. replied (submitted_value id)) (submit_job_operation input))
handle g post_claim none = none
handle g post_claim (some body) = do
  input ← claim_body body
  some (map_call (λ job. replied (claimed_value job)) (claim_job_operation input))
handle g (post_heartbeat job_id) none = none
handle g (post_heartbeat job_id) (some body) = do
  worker_id ← worker_body body
  some (
      map_call (λ done. no_content)
        (heartbeat_operation record { job_id = job_id; worker_id = worker_id }))
handle g (post_complete job_id) none = none
handle g (post_complete job_id) (some body) = do
  worker_id ← worker_body body
  some (
      map_call (λ done. no_content)
        (complete_job_operation record { job_id = job_id; worker_id = worker_id }))
handle g get_stats body =
    some (returning (replied (stats_value (get_queue_stats (get_cached_state g)))))
handle g get_jobs body = some (returning (replied (snapshot_value (get_queue_snapshot g))))
handle g get_health body =
    some (returning (replied (Value.object (property "status" (Value.text "ok") no_properties))))

-- `setErrorHandler`
unfoldable pub on_error : Thrown → Reply
on_error e = record {
  status = 500;
  body = some (error_value (tag_and_message (if is_tagged_error e then e else wrap_protocol e)));
}

abbrev pub reply_of : Result Reply → Reply
reply_of (ok reply) = reply
reply_of (thrown e) = on_error e

-- The reply to a request, where `outcome` is what the promise of a submitted mutation becomes.
unfoldable pub serve :
    (Mutation → Result MutationResult) → Engine → Route → Option Value → Option Reply
serve outcome g route body = option_map (λ c. reply_of (settle outcome c)) (handle g route body)

-- "/state": `this.engine.getCachedState() ?? {}`
state_or_empty : Option QueueState → Value
state_or_empty none = Value.object no_properties
state_or_empty (some state) = state_value state

unfoldable pub view_state : Engine → Reply
unfolding state_or_empty
view_state g = replied (state_or_empty (get_cached_state g))

-- "/v1/throttle-stats": `storage.getStats()`, where the storage has such a method.
unfoldable pub view_throttle_stats : Option ThrottleStats → Reply
view_throttle_stats none =
    replied (Value.object (property "throttling" (Value.boolean false) no_properties))
view_throttle_stats (some stats) = replied (
    Value.object (
      property "totalReads" (Value.number stats.total_reads) (
        property "totalWrites" (Value.number stats.total_writes) (
          property "throttledReads" (Value.number stats.throttled_reads) (
            property "throttledWrites" (Value.number stats.throttled_writes) (
              property "totalReadDelayMs" (Value.number stats.total_read_delay_ms) (
                property "totalWriteDelayMs" (Value.number stats.total_write_delay_ms) (
                  property "dailyWriteCount" (Value.number stats.daily_write_count) (
                    property "dailyBudgetExceeded" (Value.boolean stats.daily_budget_exceeded)
                      no_properties)))))))))

-- A client that reads "/state" and casts it gets the cached state.
pub view_state-as_state :
    (g : Engine) (state : QueueState)
    → get_cached_state g ≡ some state
    → option_map as_state (view_state g).body ≡ some (some state)
unfolding view_state state_or_empty
view_state-as_state g state e =
    ap (λ c. some (as_state (state_or_empty c))) e ∙ ap some (as_state-state_value state)
