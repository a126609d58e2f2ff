-- ===== src/Exchange.antt =====
-- The adapters of packages/client/src/transports against the handlers of packages/broker/src: what the
-- broker makes of what an adapter sends, and the adapter of what the broker answers.
pub mod Messages
pub mod Jobs
pub mod Agree
pub mod Listing
pub mod Failures
use osqueue.Base.{ℕ, String, ◌<>◌, List, Option, none, some, ◌≡◌, or_default}
use osqueue.Types.{Value, Properties, Mutation, MutationResult, ClaimedJob}
use osqueue.Types.Errors.{Thrown, Result, ok, thrown}
use osqueue.Engine.{Engine}
use osqueue.Broker.Calls.{settle}
use osqueue.Broker.Replies.{ErrorPayload, error_payload}
use osqueue.Broker.Dispatch.{dispatch_ws}
use osqueue.Broker.Routes.{Route, Reply, serve}
use osqueue.Transports.{ClaimJobResult}
use osqueue.Transports.Rest.{HttpResponse, RestAdapter, method_of, path_of}
use osqueue.Transports.Ws.{Method, method_name, Settlement, resolved, rejected, request_error}

-- What the promise of a submitted mutation becomes.
abbrev pub Outcomes : Type 0
Outcomes = Mutation → Result {0} MutationResult

-- The settlement of a request to `dispatchWs`: the result, or an error with the message and the tag
-- of what the broker throws.
abbrev pub settled_as : Method → Result Value → Settlement
settled_as method (ok v) = resolved (some v)
settled_as method (thrown e) =
    rejected (request_error (error_payload e).message method (some (error_payload e).tag))

abbrev pub settled_result : Settlement → Result (Option Value)
settled_result (resolved v) = ok v
settled_result (rejected e) = thrown e

-- What a request over WebSocket comes to.
abbrev pub over_ws : Outcomes → Engine → Method → Properties → Result (Option Value)
over_ws outcome g method params = settled_result (
    settled_as method (
      settle outcome
        (dispatch_ws g (some (Value.object params)) (some (Value.text (method_name method))))))

-- The response that carries a reply, where `print` is `JSON.stringify`.
abbrev pub http_response : (Value → String) → Reply → HttpResponse
http_response print reply = record {
  status = reply.status;
  text = elim reply.body [ none ↦ "" | some v ↦ print v ];
  json = reply.body;
}

-- `fetch` brings the broker's reply to a request of the adapter.
abbrev pub Fetches :
    (Value → String) → Outcomes → Engine → RestAdapter → Route → Option Value → Type 0
Fetches print outcome g A route body =
    (reply : Reply)
    → serve outcome g route body ≡ some reply
    → A.fetch_impl
        record { url = A.base_url <> path_of route; method = method_of route; body = body }
      ≡ ok (http_response print reply)

-- What a worker is told about the job that it was given, or was not.
abbrev pub told : Option ClaimedJob → ClaimJobResult
told none = record { job_id = none; type = ""; payload = Value.null }
told (some job) = record {
  job_id = some job.id;
  type = or_default job.type "";
  payload = or_default job.payload Value.null;
}
