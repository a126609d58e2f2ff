-- ===== src/Tests/Exchanges.antt =====
-- The client's adapters and the broker's handlers at concrete inputs.
use osqueue.Base.{
  ◌≡◌, refl, ap, String, [], ◌∷◌, Option, none, some, or_default, string_eq, ne_of_compare, ◌<>◌,
}
use osqueue.Base.Decimal.{decimal}
use osqueue.Types.{Value, no_properties, MutationResult, ClaimedJob}
use osqueue.Types.Errors.{
  Tag, tagged_error, osqueue_error, native_error, no_details, no_cause, ok, thrown,
  wrap_unknown_error,
}
use osqueue.Queue.{empty_state}
use osqueue.Engine.{Engine, new_engine}
use osqueue.Broker.{submit_job_response, claim_job_response}
use osqueue.Broker.Calls.{settle, map_call, claim_job_operation}
use osqueue.Broker.Service.{
  service_submit_job, service_claim_job, service_list_jobs, service_get_stats,
}
use osqueue.Broker.Replies.{error_payload}
use osqueue.Broker.Dispatch.{dispatch_ws, on_message}
use osqueue.Broker.Routes.{Route, post_jobs, post_claim, get_jobs, Reply, serve}
use osqueue.Transports.{
  SubmitJobRequest, ClaimJobRequest, received, submit_result, claim_result, list_result,
}
use osqueue.Transports.Rest.{
  RestAdapter, rest_request, rest_submit_job, rest_claim_job, rest_list_jobs,
}
use osqueue.Transports.Ws.{
  Method, WsTransportConfig, WsAdapter, new_adapter, create_ws_adapter, request, handle_message,
  on_close, socket_created, message_value, submit_params, claim_params, connection_error, rejected,
}
use osqueue.Transports.Ws.Once.{Reaches, Step, Accounted, Reaches-Accounted}
use osqueue.Transports.Ws.Late.{reconnected, request-on_close}
use osqueue.Transports.Connect.{QueueClient, client_submit_job, client_claim_job, client_list_jobs}
use osqueue.Exchange.{Outcomes, settled_as, over_ws, http_response, told}
use osqueue.Exchange.Messages.{request-on_message-handle_message}
use osqueue.Base.Dict.{lookup}
use osqueue.Exchange.Jobs.{handle-claim, submit_object, claim_object}
use osqueue.Exchange.Agree.{claim_job-agree, submit_job-agree}
use osqueue.Exchange.Listing.{list_jobs-agree}
use osqueue.Exchange.Failures.{rest_request-on_error}

abbrev print : Value → String
print v = "{}"

abbrev engine : Engine
engine = record new_engine { cached_state = some empty_state }

abbrev job : ClaimedJob
job = record { id = "j1"; payload = some (Value.number 7); type = none }

abbrev result : MutationResult
result = record { claimed_job = some (some job); enqueued_ids = some ("j2" ∷ []) }

abbrev outcome : Outcomes
outcome m = ok result

abbrev lost : Reply
lost = record { status = 404; body = none }

-- A `fetch` that always brings the broker's reply to one request.
abbrev adapter : Outcomes → Route → Option Value → RestAdapter
adapter outcomes route body = record {
  base_url = "http://b:1";
  fetch_impl = λ r. ok (http_response print (or_default (serve outcomes engine route body) lost));
}

abbrev client : QueueClient
client = record {
  submit_job = λ m. settle outcome (map_call (λ i. or_default i "") (service_submit_job m));
  claim_job = λ m. settle outcome (service_claim_job m);
  heartbeat = λ m. ok tt;
  complete_job = λ m. ok tt;
  get_stats = ok (service_get_stats engine);
  list_jobs = ok (service_list_jobs engine);
}

abbrev wanted : ClaimJobRequest
wanted = record { worker_id = "w"; types = some ("email" ∷ []) }

claim_job-agree_example :
    let A = adapter outcome post_claim (some (claim_object wanted)) in
    (rest_claim_job A wanted ≡ some (ok (told (some job))))
    × (received claim_result (over_ws outcome engine Method.claim_job (claim_params wanted))
        ≡ some (ok (told (some job))))
    × (client_claim_job client wanted ≡ ok (told (some job)))
unfolding claim_job_response
claim_job-agree_example =
    claim_job-agree print outcome engine (adapter outcome post_claim (some (claim_object wanted)))
      client wanted result refl (λ j e empty. absurd (ne_of_compare "j1" "" refl (cc)))
      (λ reply e. ap (λ r. ok (http_response print (or_default r lost))) e) (λ m. refl)

abbrev submitted : SubmitJobRequest
submitted = record { type = ""; payload = some (Value.number 7); max_attempts = some 2 }

submit_job-agree_example :
    let A = adapter outcome post_jobs (some (submit_object submitted)) in
    (rest_submit_job A submitted ≡ some (ok "j2"))
    × (received submit_result (over_ws outcome engine Method.submit_job (submit_params submitted))
        ≡ some (ok "j2"))
    × (client_submit_job client submitted ≡ ok "j2")
unfolding submit_job_response
submit_job-agree_example =
    submit_job-agree print outcome engine
      (adapter outcome post_jobs (some (submit_object submitted))) client submitted (Value.number 7)
      result "j2" refl refl refl
      (λ reply e. ap (λ r. ok (http_response print (or_default r lost))) e) (λ m. refl)

list_jobs-agree_example :
    (rest_list_jobs (adapter outcome get_jobs none) ≡ some (ok (service_list_jobs engine)))
    × (received list_result (over_ws outcome engine Method.list_jobs no_properties)
        ≡ some (ok (service_list_jobs engine)))
    × (client_list_jobs client ≡ ok (service_list_jobs engine))
list_jobs-agree_example =
    list_jobs-agree print outcome engine (adapter outcome get_jobs none) client
      (λ reply e. ap (λ r. ok (http_response print (or_default r lost))) e) refl

abbrev boom : Outcomes
boom m = thrown (native_error "boom")

rest_request-on_error_example :
    rest_request
      (adapter boom post_claim (some (claim_object wanted)))
      post_claim
      (some (claim_object wanted))
    ≡ thrown (
        osqueue_error (
          tagged_error Tag.transport_request
            ("REST "
              <> "POST"
              <> " "
              <> "/v1/jobs/claim"
              <> " failed: "
              <> decimal 500
              <> " "
              <> "boom")
            (record no_details {
              method = some "POST";
              path = some "/v1/jobs/claim";
              status = some 500;
              remote_tag = some "BrokerProtocolError";
            })
            no_cause))
unfolding error_payload wrap_unknown_error claim_job_operation
rest_request-on_error_example =
    rest_request-on_error print boom engine (adapter boom post_claim (some (claim_object wanted)))
      post_claim (some (claim_object wanted)) _ (native_error "boom")
      (handle-claim engine "w" (some ("email" ∷ []))) refl (ne_of_compare "boom" "" refl)
      (ne_of_compare "{}" "" refl)
      (λ reply e. ap (λ r. ok (http_response print (or_default r lost))) e)

abbrev config : WsTransportConfig
config = record { base_url = some "http://b:1"; request_timeout_ms = none; ws_path = none }

abbrev open_adapter : WsAdapter
open_adapter = record (new_adapter config) { socket = some 0 }

open_adapter-Reaches : Reaches open_adapter
unfolding create_ws_adapter string_eq socket_created
open_adapter-Reaches =
    Reaches.stepped (Reaches.created config (new_adapter config) refl) (Step.creates 0)

Reaches-Accounted_example :
    Accounted (request Method.get_stats no_properties (ok tt) open_adapter).1
Reaches-Accounted_example =
    Reaches-Accounted
      (Reaches.stepped open_adapter-Reaches (Step.requests Method.get_stats no_properties (ok tt)))

request-on_message-handle_message_example :
    let message = message_value (decimal 1) Method.get_stats no_properties in
    let (r, asked) = request Method.get_stats no_properties (ok tt) open_adapter in
    (r ≡ ok (decimal 1))
    × (asked.sent ≡ (0, message) ∷ [])
    × (handle_message (some (on_message outcome engine (some message))) asked
        ≡ record open_adapter {
          request_counter = 1;
          sent = (0, message) ∷ [];
          settled =
              (
                decimal 1,
                settled_as Method.get_stats (
                    settle outcome (
                      dispatch_ws engine
                        (some (Value.object no_properties))
                        (some (Value.text "getStats")))),
              )
              ∷ [];
        })
request-on_message-handle_message_example =
    request-on_message-handle_message outcome engine open_adapter 0 Method.get_stats no_properties
      open_adapter-Reaches refl

request-on_close_example :
    let (r, asked) =
      request Method.get_stats no_properties (ok tt) (reconnected 1 1 open_adapter) in
    (r ≡ ok (decimal 1))
    × (asked.socket ≡ some 1)
    × ((on_close asked).socket ≡ none)
    × (lookup (decimal 1) (on_close asked).settled
        ≡ some (rejected (connection_error "WebSocket closed")))
    × ((answer : Option Value) → handle_message answer (on_close asked) ≡ on_close asked)
request-on_close_example =
    request-on_close 1 1 Method.get_stats no_properties open_adapter open_adapter-Reaches
