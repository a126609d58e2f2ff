-- ===== src/Transports/Rest.antt =====
-- packages/client/src/transports/rest.ts: the adapter for the REST interface. `fetch` is a parameter.
use Prim.Native.Char.{code}
use osqueue.Base.{
  ℕ, String, ◌<>◌, Bool, ◌&&◌, Option, none, some, if◌then◌else◌, ◌==◌, string_eq, nat_eq, ◌/◌,
}
use osqueue.Base.Decimal.{decimal}
use osqueue.Json.{put, option_map, string_of, text_array, as_text, is_truthy}
use osqueue.Types.{JobId, Value, no_properties, property}
use osqueue.Types.Errors.{
  Tag, Thrown, osqueue_error, native_error, tagged_error, new_error, no_details, no_cause, Result,
  ok, thrown,
}
use osqueue.Broker.Dispatch.{member}
use osqueue.Broker.Routes.{
  Route, post_jobs, post_claim, post_heartbeat, post_complete, get_stats, get_jobs, get_health,
}
use osqueue.Broker.Service.{GetStatsResponse, ListJobsResponse}
use osqueue.Transports.{
  SubmitJobRequest, ClaimJobRequest, HeldJobRequest, ClaimJobResult, Outcome, received, ignored,
  submit_result, claim_result, stats_result, list_result,
}

-- `fetch` is called with the URL, the method and the body, a JSON value that is printed. Of a
-- response the adapter uses the status, the text of the body, and the JSON value of this text, if it
-- is one.
pub record HttpRequest : Type 0 where
  pub url : String
  pub method : String
  pub body : Option Value

pub record HttpResponse : Type 0 where
  pub status : ℕ
  pub text : String
  pub json : Option Value

abbrev pub Fetch : Type 0
Fetch = HttpRequest → Result HttpResponse

-- `baseUrl.replace(/\/+$/, "")`
unfoldable pub trim_trailing_slash : String → String
trim_trailing_slash String.[] = ""
trim_trailing_slash (String.◌∷◌ c s) =
    let rest = trim_trailing_slash s in
    if nat_eq (code c) 47 && (rest == "") then "" else String.◌∷◌ c rest

pub record RestTransportConfig : Type 0 where
  pub base_url : Option String
  pub fetch_impl : Option Fetch

pub record RestAdapter : Type 0 where
  pub base_url : String
  pub fetch_impl : Fetch

abbrev config_error : String → Thrown
config_error message = osqueue_error (new_error Tag.transport_config message no_cause)

with_fetch : String → Option Fetch → Result RestAdapter
unfolding trim_trailing_slash
with_fetch base_url none =
    thrown (config_error "REST transport requires fetch support in this runtime")
with_fetch base_url (some fetch) =
    ok record { base_url = trim_trailing_slash base_url; fetch_impl = fetch }

-- `a ?? b`
abbrev pub or_else {ℓ} : {A : Type ℓ} → Option A → Option A → Option A
or_else none b = b
or_else (some a) b = some a

-- `global_fetch` is the `fetch` of the runtime, if it has one.
unfoldable pub create_rest_adapter : Option Fetch → RestTransportConfig → Result RestAdapter
unfolding with_fetch
create_rest_adapter global_fetch config = elim config.base_url [
  | none ↦ thrown (config_error "REST transport requires baseUrl")
  | some url ↦
      if url == ""
      then thrown (config_error "REST transport requires baseUrl")
      else with_fetch url (or_else config.fetch_impl global_fetch)
]

-- The methods and the paths that the adapter calls.
abbrev pub method_of : Route → String
method_of post_jobs = "POST"
method_of post_claim = "POST"
method_of (post_heartbeat id) = "POST"
method_of (post_complete id) = "POST"
method_of get_stats = "GET"
method_of get_jobs = "GET"
method_of get_health = "GET"

abbrev pub path_of : Route → String
path_of post_jobs = "/v1/jobs"
path_of post_claim = "/v1/jobs/claim"
path_of (post_heartbeat id) = "/v1/jobs/" <> id <> "/heartbeat"
path_of (post_complete id) = "/v1/jobs/" <> id <> "/complete"
path_of get_stats = "/v1/stats"
path_of get_jobs = "/v1/jobs"
path_of get_health = "/healthz"

unfoldable pub message_or : String → Option Value → String
message_or text none = text
message_or text (some v) = if is_truthy v then string_of v else text

-- The tag and the message that a failed response gives. Reading a property of null throws, which is
-- caught; a `_tag` that is not a text, against its declared type, is left out.
unfoldable pub error_parts : String → Option Value → Option String × String
unfolding message_or
error_parts text none = (none, text)
error_parts text (some v) = (
  elim (member "_tag" v) [ none ↦ none | some t ↦ as_text t ],
  message_or text (member "message" v),
)

unfoldable pub request_error : Route → ℕ → Option String × String → Thrown
request_error route status (remote_tag, message) = osqueue_error (
    tagged_error Tag.transport_request
      ("REST "
        <> method_of route
        <> " "
        <> path_of route
        <> " failed: "
        <> decimal status
        <> " "
        <> message)
      (record no_details {
        method = some (method_of route);
        path = some (path_of route);
        status = some status;
        remote_tag = remote_tag;
      })
      no_cause)

-- `response.ok`: a status from 200 to 299.
abbrev pub is_ok : ℕ → Bool
is_ok status = nat_eq (status / 100) 2

unfoldable pub parsed_body : Option Value → Result (Option Value)
parsed_body none = thrown (native_error "Unexpected token in JSON")
parsed_body (some v) = ok (some v)

unfoldable pub on_response : Route → Result HttpResponse → Result (Option Value)
unfolding error_parts request_error parsed_body
on_response route (thrown e) = thrown e
on_response route (ok r) =
    if is_ok r.status
    then (if nat_eq r.status 204 then ok none else parsed_body r.json)
    else thrown (
        request_error route r.status
          (if r.text == "" then (none, "") else error_parts r.text r.json))

module _ (A : RestAdapter) where
  unfoldable pub rest_request : Route → Option Value → Result (Option Value)
  unfolding on_response
  rest_request route body = on_response route (
      A.fetch_impl
        record { url = A.base_url <> path_of route; method = method_of route; body = body })

  unfoldable pub rest_submit_job : SubmitJobRequest → Outcome JobId
  rest_submit_job req = received submit_result (
      rest_request post_jobs (
        some (
          Value.object (
            put "payload" req.payload (
              property "type" (Value.text req.type)
                (put "maxAttempts" (option_map Value.number req.max_attempts) no_properties))))))

  unfoldable pub rest_claim_job : ClaimJobRequest → Outcome ClaimJobResult
  rest_claim_job req = received claim_result (
      rest_request post_claim (
        some (
          Value.object (
            property "workerId" (Value.text req.worker_id)
              (put "types" (option_map text_array req.types) no_properties)))))

  abbrev worker_object : String → Option Value
  worker_object worker_id =
      some (Value.object (property "workerId" (Value.text worker_id) no_properties))

  unfoldable pub rest_heartbeat : HeldJobRequest → Outcome Unit
  rest_heartbeat req =
      ignored (rest_request (post_heartbeat req.job_id) (worker_object req.worker_id))

  unfoldable pub rest_complete_job : HeldJobRequest → Outcome Unit
  rest_complete_job req =
      ignored (rest_request (post_complete req.job_id) (worker_object req.worker_id))

  unfoldable pub rest_get_stats : Outcome GetStatsResponse
  rest_get_stats = received stats_result (rest_request get_stats none)

  unfoldable pub rest_list_jobs : Outcome ListJobsResponse
  rest_list_jobs = received list_result (rest_request get_jobs none)
